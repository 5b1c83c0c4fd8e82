-- ===== src/Storage/Audit.antt =====
-- contracts/stream/src/storage.rs: the audit log, a circular buffer of twenty entries.
pub mod History
use sorostream_contracts.Prelude.{
  ℕ, zero, suc, ◌+◌, ◌-◌, ◌%◌, min, none, some, List, [], ◌∷◌, unwrap_or, update,
}
use sorostream_contracts.Types.{AuditEntry}
use sorostream_contracts.Env.{Instance, World}

abbrev pub audit_cap : ℕ
audit_cap = 20

-- The counters stay below twenty-one, so that no sum of them leaves `u32`.
unfoldable pub append_entry : AuditEntry → Instance → Instance
append_entry entry s =
    let head = unwrap_or s.audit_head 0 in
    let len = unwrap_or s.audit_len 0 in
    let write_idx = head % audit_cap in
    record s {
      audit_slot = update s.audit_slot write_idx (some entry);
      audit_head = some ((head + 1) % audit_cap);
      audit_len = some (min (len + 1) audit_cap);
    }

-- The loop `for i in 0..len`, by the rounds that are left.
unfoldable pub entries_from : Instance → ℕ → ℕ → ℕ → ℕ → List AuditEntry
entries_from s head len i zero = []
entries_from s head len i (suc rounds) =
    let rest = entries_from s head len (suc i) rounds in
    elim (s.audit_slot ((head + audit_cap - len + i) % audit_cap)) [
      | none ↦ rest
      | some entry ↦ entry ∷ rest
    ]

unfoldable pub read_entries : Instance → List AuditEntry
unfolding entries_from
read_entries s =
    let len = unwrap_or s.audit_len 0 in entries_from s (unwrap_or s.audit_head 0) len 0 len

module _ {C : Type 0} where
  unfoldable pub append_audit_entry : AuditEntry → World C → World C
  append_audit_entry entry w = record w { inst = append_entry entry w.inst }

  unfoldable pub read_audit_log : World C → List AuditEntry
  read_audit_log w = read_entries w.inst
