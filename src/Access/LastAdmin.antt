-- ===== src/Access/LastAdmin.antt =====
-- internal/service/super_admin.go always leaves an administrator, one call at a time.
use lauth.Prelude.{
  ◌<◌, String, ◌==◌, eq_iff, ◌≡◌, ◌≢◌, refl, sym, ◌∙◌, inl, inr, true, false, Option, none, some,
  List, [], ◌∷◌, ◌++◌, arith, All, length, keep, length-append, Bool-cases, text-cases,
}
use lauth.Access.SuperAdmins.{
  AdminIo, AdminError, is_super_admin, delete_super_admin, add_super_admin, check_removal,
  remove_checked, remove_super_admin,
}

-- No user is in the table twice.
abbrev pub IsDistinct : List String → Type 0
IsDistinct [] = Unit
IsDistinct (a ∷ xs) = All (λ b. b ≢ a) xs × IsDistinct xs

-- The table has an administrator, and none twice.
abbrev pub IsSound : List String → Type 0
IsSound admins = IsDistinct admins × (0 < length admins)

All-delete :
    (P : String → Type 0) (user : String) (admins : List String)
    → All P admins
    → All P (delete_super_admin user admins)
unfolding delete_super_admin keep
All-delete P user [] h = tt
All-delete P user (a ∷ xs) h = elim (Bool-cases (a == user)) [
  | inl e ↦ simp e (All-delete P user xs h.1)
  | inr e ↦ simp e (h.0, All-delete P user xs h.1)
]

delete-IsDistinct :
    (user : String) (admins : List String)
    → IsDistinct admins
    → IsDistinct (delete_super_admin user admins)
unfolding delete_super_admin keep
delete-IsDistinct user [] h = tt
delete-IsDistinct user (a ∷ xs) h = elim (Bool-cases (a == user)) [
  | inl e ↦ simp e (delete-IsDistinct user xs h.1)
  | inr e ↦ simp e (All-delete (λ b. b ≢ a) user xs h.0, delete-IsDistinct user xs h.1)
]

-- Of two administrators one is left.
length-delete :
    (user : String) (admins : List String)
    → IsDistinct admins
    → 1 < length admins
    → 0 < length (delete_super_admin user admins)
unfolding delete_super_admin keep
length-delete user [] h n = absurd (omega arith)
length-delete user (a ∷ []) h n = absurd (omega arith)
length-delete user (a ∷ b ∷ xs) h n = elim (text-cases a user) [
  | inr e ↦ simp e.1 (omega arith)
  | inl e ↦ elim (text-cases b user) [
    | inr f ↦ rw (f.1) (elim (Bool-cases (a == user)) [
      | inl g ↦ simp g (omega arith)
      | inr g ↦ simp g (omega arith)
    ])
    | inl f ↦ absurd (h.0.0 (f ∙ sym e))
  ]
]

is_super_admin-none :
    (user : String) (admins : List String)
    → is_super_admin user admins ≡ false
    → All (λ b. b ≢ user) admins
unfolding is_super_admin
is_super_admin-none user [] h = tt
is_super_admin-none user (a ∷ xs) h = elim (text-cases a user) [
  | inl e ↦ absurd (ground (arith, eq_iff a user))
  | inr e ↦ (e.0, is_super_admin-none user xs (rw e.1 at h))
]

All-append :
    (P : String → Type 0) (xs : List String) (b : String) → All P xs → P b → All P (xs ++ b ∷ [])
All-append P [] b h p = (p, tt)
All-append P (a ∷ xs) b h p = (h.0, All-append P xs b h.1 p)

append-IsDistinct :
    (xs : List String) (b : String)
    → IsDistinct xs
    → All (λ a. a ≢ b) xs
    → IsDistinct (xs ++ b ∷ [])
append-IsDistinct [] b h n = (tt, tt)
append-IsDistinct (a ∷ xs) b h n =
    (All-append (λ c. c ≢ a) xs b h.0 (λ e. n.0 (sym e)), append-IsDistinct xs b h.1 n.1)

pub data AdminCall : Type 0 where
  add_call remove_call : AdminIo → String → AdminCall

abbrev pub admin_call : AdminCall → List String → List String
admin_call (add_call io user) admins = (add_super_admin io user admins).1
admin_call (remove_call io user) admins = (remove_super_admin io user admins).1

abbrev pub admin_calls : List AdminCall → List String → List String
admin_calls [] admins = admins
admin_calls (c ∷ cs) admins = admin_calls cs (admin_call c admins)

add-IsSound :
    (io : AdminIo) (user : String) (admins : List String)
    → IsSound admins
    → IsSound (add_super_admin io user admins).1
unfolding add_super_admin
add-IsSound io user admins h = elim (Bool-cases io.user_ok) [
  | inr e ↦ simp e h
  | inl e ↦ elim (Bool-cases io.count_ok) [
    | inr f ↦ simp (e, f) h
    | inl f ↦ elim (Bool-cases (is_super_admin user admins)) [
      | inl g ↦ simp (e, f, g) h
      | inr g ↦ elim (Bool-cases io.write_ok) [
        | inr k ↦ simp (e, f, g, k) h
        | inl k ↦
            simp (e, f, g, k)
              (
                append-IsDistinct admins user h.0 (is_super_admin-none user admins g),
                omega (arith, length-append admins (user ∷ [])),
              )
      ]
    ]
  ]
]

many :
    (io : AdminIo) (user : String) (admins : List String)
    → check_removal io user admins ≡ none
    → 1 < length admins
unfolding check_removal
many io user admins h = ground arith

remove-IsSound :
    (io : AdminIo) (user : String) (o : Option AdminError) (admins : List String)
    → check_removal io user admins ≡ o
    → IsSound admins
    → IsSound (remove_checked io user o admins).1
remove-IsSound io user (some e) admins c h = h
remove-IsSound io user none admins c h = elim (Bool-cases io.write_ok) [
  | inl e ↦
      simp e
        (delete-IsDistinct user admins h.0, length-delete user admins h.0 (many io user admins c))
  | inr e ↦ simp e h
]

-- Once there is an administrator there is always one, and none twice, whatever is added and
-- removed, one call at a time, and whichever calls of the database fail.
pub admin_calls-IsSound :
    (cs : List AdminCall) (admins : List String) → IsSound admins → IsSound (admin_calls cs admins)
unfolding remove_super_admin
admin_calls-IsSound [] admins h = h
admin_calls-IsSound (add_call io user ∷ cs) admins h =
    admin_calls-IsSound cs _ (add-IsSound io user admins h)
admin_calls-IsSound (remove_call io user ∷ cs) admins h =
    admin_calls-IsSound cs _ (remove-IsSound io user (check_removal io user admins) admins refl h)

-- Two removals at once: both have checked the table before either deletes.
abbrev pub remove_both : AdminIo → AdminIo → String → String → List String → List String
remove_both io io' a b admins =
    let checked = check_removal io a admins in
    let checked' = check_removal io' b admins in
    (remove_checked io' b checked' (remove_checked io a checked admins).1).1

abbrev pub all_work : AdminIo
all_work = record { user_ok = true; count_ok = true; list_ok = true; write_ok = true }

-- When the two last administrators are removed at once and both calls check before either
-- deletes, none is left.
pub removed_both : (a b : String) → a ≢ b → remove_both all_work all_work a b (a ∷ b ∷ []) ≡ []
unfolding check_removal is_super_admin delete_super_admin keep
removed_both a b ne = ground (arith, eq_iff a a, eq_iff b b, eq_iff a b, eq_iff b a)
