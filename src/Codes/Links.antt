-- ===== src/Codes/Links.antt =====
-- What internal/plugin/verification/link_manager.go accepts.
use Prim.Native.Char.{Char, code}
use Prim.Native.String.{◌++◌}
use text.Mathlib.TextLemmas.{nil-append, cons-append}
use lauth.Prelude.{
  ℕ, ◌+◌, ◌≤◌, String, eq_refl, ◌≡◌, refl, ap, inl, inr, Bool, true, false, ◌||◌, none, some, List,
  [], ◌∷◌, arith, eqb, Bool-cases,
}
use lauth.Prelude.Dict.{lookup, erase, lookup-insert, lookup-erase}
use lauth.Codes.LinkManager.{
  VerificationLink, LinkManager, ok, err, no_link_found, invalid_format, make_link, generate_link,
  send_link, push_first, split_dots, session_of, verify_link_stored, verify_link,
}

abbrev pub has_dot : String → Bool
has_dot String.[] = false
has_dot (String.◌∷◌ c s) = eqb (code c) b'.' || has_dot s

split_dots-none : (s : String) → has_dot s ≡ false → split_dots s ≡ s ∷ []
unfolding split_dots
split_dots-none String.[] h = refl
split_dots-none (String.◌∷◌ c s) h = ground (arith, split_dots-none s)

split_dots-dot : (s : String) → split_dots ("." ++ s) ≡ "" ∷ split_dots s
unfolding split_dots
split_dots-dot s = rw cons-append (rw nil-append refl)

split_dots-append :
    (t s : String) → has_dot t ≡ false → split_dots (t ++ ("." ++ s)) ≡ t ∷ split_dots s
unfolding split_dots
split_dots-append String.[] s h = rw nil-append (split_dots-dot s)
split_dots-append (String.◌∷◌ c t) s h = rw cons-append (ground (arith, split_dots-append t s))

push_first-long :
    (c : Char) (parts : List String)
    → (p : String) × (rest : List String) × (push_first c parts ≡ p ∷ rest)
push_first-long c [] = (_, _, refl)
push_first-long c (p ∷ ps) = (_, _, refl)

split_dots-cons : (s : String) → (p : String) × (rest : List String) × (split_dots s ≡ p ∷ rest)
unfolding split_dots
split_dots-cons String.[] = (_, _, refl)
split_dots-cons (String.◌∷◌ c s) = elim (Bool-cases (eqb (code c) b'.')) [
  | inl e ↦ rw e (_, _, refl)
  | inr e ↦ rw e (push_first-long c (split_dots s))
]

-- The session comes out of a token as it went in, where neither holds a dot.
session_of-split :
    (t s : String)
    → has_dot t ≡ false
    → has_dot s ≡ false
    → session_of (split_dots (t ++ ("." ++ s))) ≡ some s
session_of-split t s ht hs = rw (split_dots-append t s ht, split_dots-none s hs)

stored-send_link :
    (sent : Bool) (token : String) (t : ℕ) (to session : String) (m : LinkManager)
    → lookup to (send_link sent (some token) t to session m).1.store
      ≡ some (make_link m.link_config token to session t)
unfolding send_link generate_link
stored-send_link true token t to session m = rw (lookup-insert to to, eq_refl to)
stored-send_link false token t to session m = rw (lookup-insert to to, eq_refl to)

verify_stored-fits :
    (now : ℕ) (to session : String) (link : VerificationLink) (m : LinkManager)
    → now ≤ link.expired_at
    → session_of (split_dots link.token) ≡ some session
    → verify_link_stored now to link.token (some link) m
      ≡ (ok session, record m { store = erase to m.store })
verify_stored-fits now to session link m live e = rw (e, eq_refl link.token) (ground arith)

used_link :
    (sent : Bool) (token : String) (t now : ℕ) (to session : String) (m : LinkManager)
    → has_dot token ≡ false
    → has_dot session ≡ false
    → now ≤ t + m.link_config.expire_time
    → let m1 = (send_link sent (some token) t to session m).1 in
      verify_link now to (token ++ ("." ++ session)) m1
      ≡ (ok session, record m1 { store = erase to m1.store })
unfolding verify_link
used_link sent token t now to session m ht hs live =
    let m1 = (send_link sent (some token) t to session m).1 in
    let link = make_link m.link_config token to session t in
    rw (stored-send_link sent token t to session m)
      (verify_stored-fits now to session link m1 live (session_of-split token session ht hs))

-- A link that was made for a session gives that session back, once, until it expires, whether or
-- not sending it failed: the token and the session must hold no dot, and a second use finds no
-- link.
pub send_link-verify_link :
    (sent : Bool) (token : String) (t now later : ℕ) (to session again : String) (m : LinkManager)
    → has_dot token ≡ false
    → has_dot session ≡ false
    → now ≤ t + m.link_config.expire_time
    → let m1 = (send_link sent (some token) t to session m).1 in
      let used = verify_link now to (token ++ ("." ++ session)) m1 in
      (used.0 ≡ ok session) × ((verify_link later to again used.1).0 ≡ err no_link_found)
unfolding verify_link
send_link-verify_link sent token t now later to session again m ht hs live =
    let m1 = (send_link sent (some token) t to session m).1 in
    let used = used_link sent token t now to session m ht hs live in
    (ap (λ r. r.0) used, rw used (rw (lookup-erase to to m1.store, eq_refl to) refl))

split_dots-long :
    (s : String)
    → has_dot s ≡ true
    → (p q : String) × (r : List String) × (split_dots s ≡ p ∷ q ∷ r)
unfolding split_dots
split_dots-long String.[] h = cc
split_dots-long (String.◌∷◌ c s) h = elim (Bool-cases (eqb (code c) b'.')) [
  | inl e ↦ let (p, rest, q) = split_dots-cons s in (String.[], p, rest, rw (e, q) refl)
  | inr e ↦
      let (p, q, r, f) = split_dots-long s (ground arith) in (String.◌∷◌ c p, q, r, rw (e, f) refl)
]

three_parts :
    (t s : String)
    → has_dot t ≡ false
    → has_dot s ≡ true
    → session_of (split_dots (t ++ ("." ++ s))) ≡ none
three_parts t s ht hs =
    let (p, q, r, e) = split_dots-long s hs in rw (split_dots-append t s ht, e) refl

-- A link for a session whose name holds a dot is never accepted: within its time every use is
-- refused for its format, and the link stays.
pub dotted_session :
    (sent : Bool) (token : String) (t now : ℕ) (to session : String) (m : LinkManager)
    → has_dot token ≡ false
    → has_dot session ≡ true
    → now ≤ t + m.link_config.expire_time
    → let m1 = (send_link sent (some token) t to session m).1 in
      verify_link now to (token ++ ("." ++ session)) m1 ≡ (err invalid_format, m1)
unfolding verify_link
dotted_session sent token t now to session m ht hs live =
    let link = make_link m.link_config token to session t in
    rw
      (
        stored-send_link sent token t to session m,
        eq_refl link.token,
        three_parts token session ht hs,
      )
      (ground arith)
