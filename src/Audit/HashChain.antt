-- ===== src/Audit/HashChain.antt =====
-- internal/audit/hash_chain.go
use lauth.Prelude.{
  String, ◌==◌, Bool, true, false, not, Option, none, some, List, [], ◌∷◌, if◌then◌else◌,
}
use lauth.Audit.Log.{AuditLog, Env}

-- HashChain; the mutex makes each operation one step.
pub record HashChain : Type 0 where
  pub last_hash : String

abbrev pub new_hash_chain : HashChain
new_hash_chain = record { last_hash = "" }

module _ (env : Env) where
  abbrev pub digest : Option String → String
  digest none = ""
  digest (some text) = env.sha256 text

  -- calculateHash: the hash of the entry with its own hash cleared, "" where it has no JSON.
  unfoldable pub calculate_hash : AuditLog → String
  calculate_hash log = digest (env.encode (record log { hash = "" }))

  -- AddLog; false is its error. The entry and the chain are changed in place.
  unfoldable pub add_log : AuditLog → HashChain → Bool × AuditLog × HashChain
  add_log log hc =
      let linked = record log { prev_hash = hc.last_hash } in
      let hash = calculate_hash linked in
      if hash == ""
      then (false, linked, hc)
      else (true, record linked { hash = hash }, record { last_hash = hash })

  -- VerifyLog
  unfoldable pub verify_log : AuditLog → Bool
  verify_log log =
      let calculated = calculate_hash log in
      if calculated == "" then false else calculated == log.hash

  -- The loop of `VerifyChain` over the entries behind `prev`.
  unfoldable pub verify_links : AuditLog → List AuditLog → Bool
  verify_links prev [] = true
  verify_links prev (log ∷ logs) =
      let rest = verify_links log logs in
      if not (verify_log log)
      then false
      else if not (log.prev_hash == prev.hash)
      then false
      else rest

  unfoldable pub verify_chain : List AuditLog → Bool
  unfolding verify_links
  verify_chain [] = true
  verify_chain (log ∷ logs) = if not (verify_log log) then false else verify_links log logs
