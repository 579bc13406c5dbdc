-- ===== src/Access/Gathered.antt =====
-- What the loops of GetUserPermissions in internal/service/permission.go find.
use lauth.Prelude.{
  String, eq_iff, ◌≡◌, sym, ap, ◌∙◌, ◌↔◌, ◌⊎◌, inl, inr, true, Option, none, some, List, [], ◌∷◌,
  Bool-cases, arith, All, All-Any, All-self, All-keep, Any, Any-append_iff,
}
use lauth.Access.Roles.{Role, Permission, Tables, text_in, get_permissions}
use lauth.Access.Permissions.{PermissionIo, Gathered, gather_one, gather, gather_roles}

-- The id is a primary key: two rows with one id are one row.
abbrev pub IsKeyed : List Permission → Type 0
IsKeyed ps = All (λ p. All (λ q. q.id ≡ p.id → q ≡ p) ps) ps

-- A row of the table, and the only one with its id.
abbrev IsRow : List Permission → Permission → Type 0
IsRow ps p = All (λ q. q.id ≡ p.id → q ≡ p) ps × Any (λ q. q ≡ p) ps

All-both :
    {A : Type 0} (P Q : A → Type 0) (xs : List A) → All P xs → All Q xs → All (λ x. P x × Q x) xs
All-both P Q [] hp hq = tt
All-both P Q (x ∷ xs) hp hq = ((hp.0, hq.0), All-both P Q xs hp.1 hq.1)

row_unique :
    (ps : List Permission) (p q : Permission) → IsRow ps p → IsRow ps q → q.id ≡ p.id → q ≡ p
row_unique ps p q hp hq same =
    let (x, only, is_q) = All-Any _ _ ps hp.0 hq.1 in
    sym is_q ∙ only (ap (λ (r : Permission). r.id) is_q ∙ same)

module _ (table : List Permission) (P : Permission → Type 0) where
  -- A row whose id is in permMap, and that P holds of, is found for P.
  abbrev Covers : Gathered → Type 0
  Covers g = (q : Permission) → IsRow table q → text_in q.id g.seen ≡ true → P q → Any P g.found

  gather_one-Covers :
      (p : Permission) (g : Gathered) → IsRow table p → Covers g → Covers (gather_one p g)
  gather_one-Covers p g row covers q row_q seen holds =
      let same : p.id ≡ q.id → P p = λ e. rw (sym (row_unique table p q row row_q (sym e))) holds in
      let old : text_in q.id g.seen ≡ true → Any P g.found = λ h. covers q row_q h holds in
      ground (arith, eq_iff p.id q.id, same, old, Any-append_iff P g.found (p ∷ []))

  gather_one_iff :
      (p : Permission) (g : Gathered)
      → IsRow table p
      → Covers g
      → Any P (gather_one p g).found ↔ (Any P g.found ⊎ P p)
  gather_one_iff p g row covers = ground (arith, covers p row, Any-append_iff P g.found (p ∷ []))

  gather-Covers :
      (ps : List Permission) (g : Gathered) → All (IsRow table) ps → Covers g → Covers (gather ps g)
  unfolding gather
  gather-Covers [] g rows covers = covers
  gather-Covers (p ∷ ps) g rows covers =
      gather-Covers ps (gather_one p g) rows.1 (gather_one-Covers p g rows.0 covers)

  gather_iff :
      (ps : List Permission) (g : Gathered)
      → All (IsRow table) ps
      → Covers g
      → Any P (gather ps g).found ↔ (Any P g.found ⊎ Any P ps)
  unfolding gather
  gather_iff [] g rows covers = (λ h. inl h, λ h. elim h [ inl a ↦ a | inr b ↦ absurd b ])
  gather_iff (p ∷ ps) g rows covers =
      let ih = gather_iff ps (gather_one p g) rows.1 (gather_one-Covers p g rows.0 covers) in
      ground (arith, ih, gather_one_iff p g rows.0 covers)

-- What is found, when the database answers, has an item of P.
abbrev pub FoundBy : (Permission → Type 0) → Option Gathered → Type 0
FoundBy P none = ⊥
FoundBy P (some g) = Any P g.found

module _ (io : PermissionIo) (t : Tables) (keyed : IsKeyed t.permissions) where
  rows : All (IsRow t.permissions) t.permissions
  rows = All-both _ _ t.permissions keyed (All-self t.permissions)

  role_rows : (id : String) → All (IsRow t.permissions) (get_permissions id t)
  unfolding get_permissions
  role_rows id = All-keep _ _ t.permissions rows

  pub gather_roles_iff :
      (P : Permission → Type 0) (rs : List Role) (g : Gathered)
      → Covers t.permissions P g
      → FoundBy P (gather_roles io t rs g) ↔ (
          All (λ r. io.permissions_ok r.id ≡ true) rs
          × (Any P g.found ⊎ Any (λ r. Any P (get_permissions r.id t)) rs))
  unfolding gather_roles
  gather_roles_iff P [] g covers =
      (λ h. (tt, inl h), λ h. elim h.1 [ inl a ↦ a | inr b ↦ absurd b ])
  gather_roles_iff P (r ∷ rs) g covers =
      let all = role_rows r.id in
      let ih =
        gather_roles_iff P rs (gather (get_permissions r.id t) g)
          (gather-Covers t.permissions P _ g all covers) in
      let one = gather_iff t.permissions P (get_permissions r.id t) g all covers in
      elim (Bool-cases (io.permissions_ok r.id)) [
        | inl e ↦ simp e (ground (arith, ih, one))
        | inr e ↦ simp e (ground arith)
      ]
