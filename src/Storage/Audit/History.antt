-- ===== src/Storage/Audit/History.antt =====
-- contracts/stream/src/storage.rs, the audit log: the circular buffer against the list of all entries.
use sorostream_contracts.Prelude.{
  ℕ, true, false, zero, suc, ◌+◌, ◌-◌, ◌%◌, ◌≤◌, ◌<◌, ◌≡◌, refl, ap, sym, ◌∙◌, min, none, some,
  List, [], ◌∷◌, ◌++◌, append_assoc, append-nil, subst, arith, length, length-append, get_elem?,
  drop, unwrap_or, ◌==◌, if◌then◌else◌, Bool-cases, inl, inr,
}
use sorostream_contracts.Types.{AuditEntry}
use sorostream_contracts.Env.{Instance}
use sorostream_contracts.Storage.Audit.{append_entry, entries_from, read_entries}

-- The buffer after the entries `all` were appended, the first of them first: the last twenty stand in
-- their slots.
record IsLog (s : Instance) (all : List AuditEntry) : Type 0 where
  head : unwrap_or s.audit_head 0 ≡ length all % 20
  len : unwrap_or s.audit_len 0 ≡ min (length all) 20
  slots : (j : ℕ) → j < length all → length all ≤ j + 20 → s.audit_slot (j % 20) ≡ get_elem? all j

get_elem?-snoc :
    (all : List AuditEntry) (e : AuditEntry) (j : ℕ)
    → get_elem? (all ++ e ∷ []) j ≡ (if length all == j then some e else get_elem? all j)
get_elem?-snoc [] e zero = refl
get_elem?-snoc [] e (suc j) = ground arith
get_elem?-snoc (x ∷ all) e zero = ground arith
get_elem?-snoc (x ∷ all) e (suc j) = ground (arith, get_elem?-snoc all e j)

append_entry-IsLog :
    (s : Instance) (all : List AuditEntry) (e : AuditEntry)
    → IsLog s all
    → IsLog (append_entry e s) (all ++ e ∷ [])
unfolding append_entry
append_entry-IsLog s all e h =
    let n = length-append all (e ∷ []) in
    record {
      head = omega (arith, h.head, n);
      len = omega (arith, h.len, n);
      slots = λ j lt recent. rw (get_elem?-snoc all e j) (elim (Bool-cases (length all == j)) [
        | inl new ↦
            let here : (unwrap_or s.audit_head 0 % 20 == j % 20) ≡ true = ground (arith, h.head) in
            rw (here, new) refl
        | inr old ↦
            let elsewhere : (unwrap_or s.audit_head 0 % 20 == j % 20) ≡ false =
              ground (arith, h.head, n) in
            rw (elsewhere, old) (h.slots j (ground (arith, n)) (omega (arith, n)))
      ]);
    }

get_elem?-drop :
    (all : List AuditEntry) (k : ℕ)
    → k < length all
    → (x : AuditEntry) × (get_elem? all k ≡ some x) × (drop k all ≡ x ∷ drop (suc k) all)
get_elem?-drop [] k h = absurd (omega arith)
get_elem?-drop (x ∷ all) zero h = (x, refl, refl)
get_elem?-drop (x ∷ all) (suc k) h = get_elem?-drop all k (omega arith)

drop-all : (k : ℕ) (all : List AuditEntry) → length all ≤ k → drop k all ≡ []
drop-all zero [] h = refl
drop-all zero (x ∷ all) h = absurd (omega arith)
drop-all (suc k) [] h = refl
drop-all (suc k) (x ∷ all) h = drop-all k all (omega arith)

entries_from-eq :
    (s : Instance) (all : List AuditEntry) (i rounds : ℕ)
    → IsLog s all
    → i + rounds ≡ min (length all) 20
    → entries_from s (unwrap_or s.audit_head 0) (unwrap_or s.audit_len 0) i rounds
      ≡ drop (length all - 20 + i) all
unfolding entries_from
entries_from-eq s all i zero h e = sym (drop-all (length all - 20 + i) all (omega arith))
entries_from-eq s all i (suc rounds) h e =
    let k = length all - 20 + i in
    let (x, found, split) = get_elem?-drop all k (omega arith) in
    let here : (unwrap_or s.audit_head 0 + 20 - unwrap_or s.audit_len 0 + i) % 20 ≡ k % 20 =
      omega (arith, h.head, h.len) in
    let stored = ap s.audit_slot here ∙ h.slots k (omega arith) (omega arith) ∙ found in
    let rest = entries_from-eq s all (suc i) rounds h (omega arith) in
    let next : length all - 20 + suc i ≡ suc k = omega arith in
    rw (stored, entries_from) (ap (λ l. x ∷ l) (rest ∙ ap (λ m. drop m all) next) ∙ sym split)

read_entries-eq :
    (s : Instance) (all : List AuditEntry)
    → IsLog s all
    → read_entries s ≡ drop (length all - 20) all
unfolding read_entries
read_entries-eq s all h =
    ap (entries_from s (unwrap_or s.audit_head 0) (unwrap_or s.audit_len 0) 0) h.len
    ∙ entries_from-eq s all 0 (min (length all) 20) h (omega arith)
    ∙ ap (λ m. drop m all) (omega arith)

-- Entries appended one by one.
abbrev pub append_all : List AuditEntry → Instance → Instance
append_all [] s = s
append_all (e ∷ es) s = append_all es (append_entry e s)

append_all-IsLog :
    (es all : List AuditEntry) (s : Instance) → IsLog s all → IsLog (append_all es s) (all ++ es)
append_all-IsLog [] all s h = rw append-nil h
append_all-IsLog (e ∷ es) all s h =
    subst (IsLog (append_all es (append_entry e s))) (append_assoc all (e ∷ []) es)
      (append_all-IsLog es (all ++ e ∷ []) (append_entry e s) (append_entry-IsLog s all e h))

-- If entries are appended one after another to an audit log that was never written, then it reads
-- back the last twenty of them, or all if there are fewer, in order.
pub read_entries-append_all :
    (es : List AuditEntry) (s : Instance)
    → s.audit_head ≡ none
    → s.audit_len ≡ none
    → read_entries (append_all es s) ≡ drop (length es - 20) es
read_entries-append_all es s head len = read_entries-eq (append_all es s) es (
    append_all-IsLog es [] s (record {
      head = rw head refl;
      len = rw len refl;
      slots = λ j lt recent. absurd (omega arith);
    }))
