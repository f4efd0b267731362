-- ===== src/Api/Payload.antt =====
-- api/reimbursement/create/payload.py: the capped read of a request's body. A byte string is a
-- `String` with one character for each byte.
pub mod Capped
use reimbursement_analyzer.Prelude
use reimbursement_analyzer.Prelude.{
  ℕ, ◌+◌, ◌/◌, String, Option, none, some, List, [], ◌∷◌, ◌++◌, ltb, if◌then◌else◌,
}
use reimbursement_analyzer.Errors.{Exc, payload_too_large}
use reimbursement_analyzer.Config.{max_body_bytes}
use reimbursement_analyzer.World.{Result, ok, raised}

-- `request.stream()`: chunks, and then the end or an exception (a client that has gone).
pub data Stream : Type 0 where
  finished : Stream
  broken : Exc → Stream
  chunk : String → Stream → Stream

abbrev pub too_large : Exc
too_large = payload_too_large (
    Prelude.Text.concat
      ("payload exceeds " ∷ Prelude.Text.decimal (max_body_bytes / 1048576) ∷ " MiB limit" ∷ []))

-- `_enforce_max_body_bytes`; `none` lets the read go on.
unfoldable pub enforce_max_body_bytes : ℕ → Option Exc
enforce_max_body_bytes total = if ltb max_body_bytes total then some too_large else none

-- The loop, with its `total` and its `chunks`: how it ends, and the chunks that it has kept.
unfoldable pub read_chunks : ℕ → List String → Stream → Result String × List String
unfolding enforce_max_body_bytes
read_chunks total chunks finished = (ok (Prelude.Text.concat chunks), chunks)
read_chunks total chunks (broken e) = (raised e, chunks)
read_chunks total chunks (chunk c rest) =
    let size = total + Prelude.Text.length c in
    let more = read_chunks size (chunks ++ c ∷ []) rest in
    elim (enforce_max_body_bytes size) [ some e ↦ (raised e, chunks) | none ↦ more ]

unfoldable pub read_capped : Stream → Result String
unfolding read_chunks
read_capped s = (read_chunks 0 [] s).0
