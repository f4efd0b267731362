-- ===== src/FailureLog/Bounds.antt =====
-- How large failure_log.py lets a record become.
use reimbursement_analyzer.Prelude
use reimbursement_analyzer.Prelude.{
  ℕ, zero, suc, ◌≤◌, String, ◌≡◌, Bool, true, false, arith, str_eq, Bool-cases, inl, inr,
  if◌then◌else◌,
}
use reimbursement_analyzer.Json.{
  Json, null, bool, number, int, str, arr, obj, Items, nil, cons, Fields, end, field, set,
}
use reimbursement_analyzer.FailureLog.{
  max_depth, too_deep, truncated, truncated_items, truncated_fields, cut_record,
}

-- A value whose texts and keys have at most `limit` characters and whose lists and dicts are nested
-- at most `room` deep.
mutual
  pub Fits : ℕ → Json → ℕ → Type 0
  Fits limit (str s) room = Prelude.Text.length s ≤ limit
  Fits limit (arr xs) zero = ⊥
  Fits limit (arr xs) (suc room) = FitsItems limit xs room
  Fits limit (obj fs) zero = ⊥
  Fits limit (obj fs) (suc room) = FitsFields limit fs room
  Fits limit null room = Unit
  Fits limit (bool b) room = Unit
  Fits limit (number n) room = Unit
  Fits limit (int n) room = Unit

  FitsItems : ℕ → Items → ℕ → Type 0
  FitsItems limit nil room = Unit
  FitsItems limit (cons x xs) room = Fits limit x room × FitsItems limit xs room

  FitsFields : ℕ → Fields → ℕ → Type 0
  FitsFields limit end room = Unit
  FitsFields limit (field k v fs) room =
      (Prelude.Text.length k ≤ limit) × Fits limit v room × FitsFields limit fs room

module _ (limit : ℕ) (marker : Prelude.Text.length too_deep ≤ limit) where
  set-FitsFields :
      (k : String) (v : Json) (fs : Fields) (room : ℕ)
      → Prelude.Text.length k ≤ limit
      → Fits limit v room
      → FitsFields limit fs room
      → FitsFields limit (set k v fs) room
  unfolding FitsFields set
  set-FitsFields k v end room hk hv h = (hk, hv, tt)
  set-FitsFields k v (field j w fs) room hk hv (hj, hw, h) = elim (Bool-cases (str_eq j k)) [
    | inl same ↦ rw (same, set) (hj, hv, h)
    | inr other_key ↦ rw (other_key, set) (hj, hw, set-FitsFields k v fs room hk hv h)
  ]

  mutual
    unfolding Fits truncated Prelude.Text.take

    truncated-Fits : (j : Json) (room : ℕ) → Fits limit (truncated limit j room) room
    truncated-Fits null zero = marker
    truncated-Fits null (suc room) = tt
    truncated-Fits (bool b) zero = marker
    truncated-Fits (bool b) (suc room) = tt
    truncated-Fits (number n) zero = marker
    truncated-Fits (number n) (suc room) = tt
    truncated-Fits (int n) zero = marker
    truncated-Fits (int n) (suc room) = tt
    truncated-Fits (str s) zero = marker
    truncated-Fits (str s) (suc room) = Prelude.Text.length-take_le limit s
    truncated-Fits (arr xs) zero = marker
    truncated-Fits (arr xs) (suc room) = truncated_items-Fits xs room
    truncated-Fits (obj fs) zero = marker
    truncated-Fits (obj fs) (suc room) = truncated_fields-Fits fs room end tt

    truncated_items-Fits :
        (xs : Items) (room : ℕ) → FitsItems limit (truncated_items limit xs room) room
    truncated_items-Fits nil room = tt
    truncated_items-Fits (cons x xs) room = (truncated-Fits x room, truncated_items-Fits xs room)

    truncated_fields-Fits :
        (fs : Fields) (room : ℕ) (done : Fields)
        → FitsFields limit done room
        → FitsFields limit (truncated_fields limit fs room done) room
    truncated_fields-Fits end room done h = h
    truncated_fields-Fits (field k v fs) room done h =
        truncated_fields-Fits fs room
          (set (Prelude.Text.take limit k) (truncated limit v room) done)
          (set-FitsFields (Prelude.Text.take limit k) (truncated limit v room) done room
            (Prelude.Text.length-take_le limit k) (truncated-Fits v room) h)

  -- What the failure log emits is bounded, if the marker for a value that is nested too deep, of 20
  -- characters, is no longer than the limit: each text and each key in it has at most as many
  -- characters as the limit, and its lists and dicts are nested at most eleven deep, whatever the
  -- record held.
  pub cut_record-Fits : (record_ : Fields) → Fits limit (cut_record limit record_) (suc max_depth)
  unfolding cut_record
  cut_record-Fits record_ = truncated-Fits (obj record_) (suc max_depth)
