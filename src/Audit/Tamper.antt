-- ===== src/Audit/Tamper.antt =====
-- What the hash chain of internal/audit/hash_chain.go guarantees.
use lauth.Prelude.{
  String, ◌==◌, eq_iff, eq_refl, ◌≡◌, ◌≢◌, refl, sym, ap, ◌∙◌, inl, inr, true, false, Option, none,
  some, List, [], ◌∷◌, ◌++◌, arith, map, length, if◌then◌else◌, Bool-cases,
}
use lauth.Audit.Log.{AuditLog, Env}
use lauth.Audit.HashChain.{
  HashChain, calculate_hash, add_log, verify_log, verify_links, verify_chain,
}

abbrev pub cleared : AuditLog → AuditLog
cleared log = record log { hash = "" }

module _ (env : Env) where
  verify_log_iff :
      (log : AuditLog)
      → verify_log env log ≡ true
      → (calculate_hash env log ≡ log.hash) × (calculate_hash env log ≢ "")
  unfolding verify_log
  verify_log_iff log h =
      ground (arith, eq_iff (calculate_hash env log) "", eq_iff (calculate_hash env log) log.hash)

  verify_links-cons :
      (x y : AuditLog) (ys : List AuditLog)
      → verify_links env x (y ∷ ys) ≡ true
      → (verify_log env y ≡ true) × (y.prev_hash ≡ x.hash) × (verify_links env y ys ≡ true)
  unfolding verify_links
  verify_links-cons x y ys h = ground (arith, eq_iff y.prev_hash x.hash)

  verify_chain-cons :
      (x : AuditLog) (xs : List AuditLog)
      → verify_chain env (x ∷ xs) ≡ true
      → (verify_log env x ≡ true) × (verify_links env x xs ≡ true)
  unfolding verify_chain
  verify_chain-cons x xs h = ground arith

  abbrev pub linked : AuditLog → HashChain → AuditLog
  linked log hc = record log { prev_hash = hc.last_hash }

  -- The entry as a successful `AddLog` leaves it.
  abbrev pub chained : AuditLog → HashChain → AuditLog
  chained log hc = record (linked log hc) { hash = calculate_hash env (linked log hc) }

  calculate_hash-chained :
      (log : AuditLog) (hc : HashChain)
      → calculate_hash env (chained log hc) ≡ calculate_hash env (linked log hc)
  unfolding calculate_hash
  calculate_hash-chained log hc = refl

  verify_log-chained :
      (log : AuditLog) (hc : HashChain)
      → (calculate_hash env (linked log hc) == "") ≡ false
      → verify_log env (chained log hc) ≡ true
  unfolding verify_log
  verify_log-chained log hc e = rw (calculate_hash-chained log hc, e, eq_refl)

  pub add_log_lem :
      (log : AuditLog) (hc : HashChain)
      → (add_log env log hc).0 ≡ true
      → (add_log env log hc ≡ (true, chained log hc, record { last_hash = (chained log hc).hash }))
        × (verify_log env (chained log hc) ≡ true)
  unfolding add_log
  add_log_lem log hc h = elim (Bool-cases (calculate_hash env (linked log hc) == "")) [
    | inl e ↦ cc (rw e at h)
    | inr e ↦ (rw e, verify_log-chained log hc e)
  ]

  abbrev put_first :
      AuditLog → Option (List AuditLog × HashChain) → Option (List AuditLog × HashChain)
  put_first log none = none
  put_first log (some (logs, hc)) = some (log ∷ logs, hc)

  -- The entries as `AddLog` leaves them, in order, and the chain behind them; nothing where one
  -- of the calls gives an error.
  unfoldable pub add_logs : List AuditLog → HashChain → Option (List AuditLog × HashChain)
  add_logs [] hc = some ([], hc)
  add_logs (log ∷ logs) hc =
      let (done, entry, hc') = add_log env log hc in
      let rest = add_logs logs hc' in if done then put_first entry rest else none

  put_first-some :
      (log : AuditLog) (o : Option (List AuditLog × HashChain)) (out : List AuditLog)
      (hc : HashChain)
      → put_first log o ≡ some (out, hc)
      → (rest : List AuditLog) × (o ≡ some (rest, hc)) × (out ≡ log ∷ rest)
  put_first-some log none out hc e = cc
  put_first-some log (some (rest, hc')) out hc e = (rest, cc, cc)

  pub add_logs-cons :
      (log : AuditLog) (logs : List AuditLog) (hc : HashChain) (out : List AuditLog)
      (hc' : HashChain)
      → add_logs (log ∷ logs) hc ≡ some (out, hc')
      → (rest : List AuditLog) × (add_logs logs (record { last_hash = (chained log hc).hash })
          ≡ some (rest, hc'))
        × (out ≡ chained log hc ∷ rest)
        × (verify_log env (chained log hc) ≡ true)
  unfolding add_logs
  add_logs-cons log logs hc out hc' e = elim (Bool-cases (add_log env log hc).0) [
    | inl done ↦
        let (q, valid) = add_log_lem log hc done in
        let (rest, later, same) = put_first-some (chained log hc) _ out hc' (rw q at e) in
        (rest, later, same, valid)
    | inr failed ↦ cc (rw failed at e)
  ]

  pub add_logs-nil :
      (hc : HashChain) (out : List AuditLog) (hc' : HashChain)
      → add_logs [] hc ≡ some (out, hc')
      → out ≡ []
  unfolding add_logs
  add_logs-nil hc out hc' e = cc

  -- The chain of entries behind one whose hash the chain ended in.
  add_logs-links :
      (prev : AuditLog) (logs : List AuditLog) (hc : HashChain) (out : List AuditLog)
      (hc' : HashChain)
      → hc.last_hash ≡ prev.hash
      → add_logs logs hc ≡ some (out, hc')
      → verify_links env prev out ≡ true
  unfolding verify_links
  add_logs-links prev [] hc out hc' same e = rw (add_logs-nil hc out hc' e)
  add_logs-links prev (log ∷ logs) hc out hc' same e =
      let (rest, later, eq, valid) = add_logs-cons log logs hc out hc' e in
      let ih =
        add_logs-links (chained log hc) logs (record { last_hash = (chained log hc).hash }) rest hc'
          refl later in
      rw eq (ground (arith, eq_iff hc.last_hash prev.hash))

  -- What `AddLog` does not touch.
  abbrev pub bare : AuditLog → AuditLog
  bare log = record log { prev_hash = ""; hash = "" }

  add_logs-bare :
      (logs : List AuditLog) (hc : HashChain) (out : List AuditLog) (hc' : HashChain)
      → add_logs logs hc ≡ some (out, hc')
      → map bare out ≡ map bare logs
  add_logs-bare [] hc out hc' e = rw (add_logs-nil hc out hc' e)
  add_logs-bare (log ∷ logs) hc out hc' e =
      let (rest, later, eq, valid) = add_logs-cons log logs hc out hc' e in
      rw eq (ap (λ l. bare log ∷ l) (add_logs-bare logs _ rest hc' later))

  -- Entries that are added one after the other without an error, from any state of the chain,
  -- verify as a chain, and only their two hash fields have changed.
  pub verify_chain-add_logs :
      (logs : List AuditLog) (hc : HashChain) (out : List AuditLog) (hc' : HashChain)
      → add_logs logs hc ≡ some (out, hc')
      → (verify_chain env out ≡ true) × (map bare out ≡ map bare logs)
  unfolding verify_chain
  verify_chain-add_logs [] hc out hc' e =
      (rw (add_logs-nil hc out hc' e), add_logs-bare [] hc out hc' e)
  verify_chain-add_logs (log ∷ logs) hc out hc' e =
      let (rest, later, eq, valid) = add_logs-cons log logs hc out hc' e in
      (
        rw (eq, valid) (add_logs-links (chained log hc) logs _ rest hc' refl later),
        add_logs-bare (log ∷ logs) hc out hc' e,
      )

  abbrev pub last_hash : AuditLog → List AuditLog → String
  last_hash x [] = x.hash
  last_hash x (y ∷ ys) = last_hash y ys

  abbrev prev_of : List AuditLog → String
  prev_of [] = ""
  prev_of (x ∷ xs) = x.prev_hash

  verify_chain-tail :
      (x : AuditLog) (xs : List AuditLog)
      → verify_chain env (x ∷ xs) ≡ true
      → verify_chain env xs ≡ true
  unfolding verify_chain
  verify_chain-tail x [] h = refl
  verify_chain-tail x (y ∷ ys) h =
      let (v, p, l) = verify_links-cons x y ys (verify_chain-cons x (y ∷ ys) h).1 in rw (v, l)

  -- Two entries of one hash are one entry, where the hash of cleared entries has no collision.
  module _
      (no_collision : (a b : AuditLog)
        → calculate_hash env a ≡ calculate_hash env b
        → calculate_hash env a ≢ ""
        → cleared a ≡ cleared b) where
    pub same_entry :
        (a b : AuditLog)
        → verify_log env a ≡ true
        → verify_log env b ≡ true
        → a.hash ≡ b.hash
        → a ≡ b
    same_entry a b va vb e =
        let (ha, na) = verify_log_iff a va in
        let (hb, nb) = verify_log_iff b vb in
        let same : cleared a ≡ cleared b = no_collision a b (ha ∙ e ∙ sym hb) na in
        λ i. record (same i) { hash = e i }

    same_links :
        (x y : AuditLog) (xs ys : List AuditLog)
        → length xs ≡ length ys
        → (verify_log env x ≡ true) × (verify_links env x xs ≡ true)
        → (verify_log env y ≡ true) × (verify_links env y ys ≡ true)
        → last_hash x xs ≡ last_hash y ys
        → x ∷ xs ≡ y ∷ ys
    same_links x y [] [] n vx vy e = ap (λ z. z ∷ []) (same_entry x y vx.0 vy.0 e)
    same_links x y [] (b ∷ ys) n vx vy e = absurd (omega arith)
    same_links x y (a ∷ xs) [] n vx vy e = absurd (omega arith)
    same_links x y (a ∷ xs) (b ∷ ys) n vx vy e =
        let (va, pa, la) = verify_links-cons x a xs vx.1 in
        let (vb, pb, lb) = verify_links-cons y b ys vy.1 in
        let ih = same_links a b xs ys (omega arith) (va, la) (vb, lb) e in
        let prev : a.prev_hash ≡ b.prev_hash = ap prev_of ih in
        let here : x ≡ y = same_entry x y vx.0 vy.0 (sym pa ∙ prev ∙ pb) in λ i. here i ∷ ih i

    -- Two chains of one length that verify and end in one hash are the same, entry for entry:
    -- with the last hash kept elsewhere, no entry can be changed, replaced or reordered unseen,
    -- where hashes have no collision.
    pub verify_chain_unique :
        (xs ys : List AuditLog) (x y : AuditLog)
        → length xs ≡ length ys
        → verify_chain env (x ∷ xs) ≡ true
        → verify_chain env (y ∷ ys) ≡ true
        → last_hash x xs ≡ last_hash y ys
        → x ∷ xs ≡ y ∷ ys
    verify_chain_unique xs ys x y n vx vy e =
        same_links x y xs ys n (verify_chain-cons x xs vx) (verify_chain-cons y ys vy) e

  -- The oldest entries can go unseen: every end part of a chain that verifies, verifies.
  pub verify_chain-append :
      (xs ys : List AuditLog) → verify_chain env (xs ++ ys) ≡ true → verify_chain env ys ≡ true
  verify_chain-append [] ys h = h
  verify_chain-append (x ∷ xs) ys h = verify_chain-append xs ys (verify_chain-tail x (xs ++ ys) h)
