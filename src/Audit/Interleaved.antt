-- ===== src/Audit/Interleaved.antt =====
-- One hash chain, of internal/audit/writer.go, runs through the files of all applications.
use lauth.Prelude.{
  ◌==◌, eq_iff, eq_refl, ◌≡◌, ◌≢◌, refl, sym, ap, ◌∙◌, inl, inr, true, false, some, List, [], ◌∷◌,
  arith, keep, Bool-cases, text-cases,
}
use lauth.Audit.Log.{AuditLog, Env}
use lauth.Audit.HashChain.{HashChain, calculate_hash, verify_log, verify_links, verify_chain}
use lauth.Audit.Tamper.{cleared, chained, add_logs, add_logs-nil, add_logs-cons, same_entry}

module _ (env : Env)
    (no_collision : (a b : AuditLog)
      → calculate_hash env a ≡ calculate_hash env b
      → calculate_hash env a ≢ ""
      → cleared a ≡ cleared b) where
  apart :
      (x y z : AuditLog)
      → verify_log env x ≡ true
      → verify_log env y ≡ true
      → x.app_id ≢ y.app_id
      → z.prev_hash ≡ y.hash
      → verify_chain env (x ∷ z ∷ []) ≡ false
  unfolding verify_chain verify_links
  apart x y z vx vy ne e = elim (Bool-cases (z.prev_hash == x.hash)) [
    | inl same ↦ absurd (
        ne (
          ap (λ (l : AuditLog). l.app_id)
            (same_entry env no_collision x y vx vy (sym ((eq_iff z.prev_hash x.hash).0 same) ∙ e))))
    | inr other ↦ ground arith
  ]

  two_left :
      (x y z : AuditLog)
      → x.app_id ≢ y.app_id
      → z.app_id ≡ x.app_id
      → verify_chain env (x ∷ z ∷ []) ≡ false
      → verify_chain env (keep (λ l. l.app_id == x.app_id) (x ∷ y ∷ z ∷ [])) ≡ false
  unfolding keep
  two_left x y z ne same broken =
      rw (eq_refl x.app_id, other_app, (eq_iff z.app_id x.app_id).1 same) broken
    where
      other_app : (y.app_id == x.app_id) ≡ false
      other_app = elim (text-cases y.app_id x.app_id) [ inl e ↦ absurd (ne (sym e)) | inr n ↦ n.1 ]

  -- When an entry of another application is recorded between two entries of one application, the
  -- two as they stand in that application's file do not verify as a chain, where hashes have no
  -- collision.
  pub interleaved_fails :
      (a b c : AuditLog) (hc : HashChain) (out : List AuditLog) (hc' : HashChain)
      → add_logs env (a ∷ b ∷ c ∷ []) hc ≡ some (out, hc')
      → a.app_id ≢ b.app_id
      → c.app_id ≡ a.app_id
      → verify_chain env (keep (λ l. l.app_id == a.app_id) out) ≡ false
  interleaved_fails a b c hc out hc' e ne same =
      let (r1, e1, o1, v1) = add_logs-cons env a (b ∷ c ∷ []) hc out hc' e in
      let hc1 : HashChain = record { last_hash = (chained env a hc).hash } in
      let (r2, e2, o2, v2) = add_logs-cons env b (c ∷ []) hc1 r1 hc' e1 in
      let hc2 : HashChain = record { last_hash = (chained env b hc1).hash } in
      let (r3, e3, o3, v3) = add_logs-cons env c [] hc2 r2 hc' e2 in
      let x = chained env a hc in
      let y = chained env b hc1 in
      let z = chained env c hc2 in
      let broken = apart x y z v1 v2 ne refl in
      let o4 = add_logs-nil env _ r3 hc' e3 in rw (o1, o2, o3, o4) (two_left x y z ne same broken)
