-- ===== src/Api/Payload/Capped.antt =====
-- The capped read beside a read of the whole body.
use reimbursement_analyzer.Prelude
use reimbursement_analyzer.Prelude.{
  ℕ, ◌+◌, ◌≤◌, ◌<◌, String, ◌≡◌, refl, ap, ◌∙◌, true, false, Option, none, some, List, [], ◌∷◌,
  ◌++◌, ltb, inl, inr, Bool-cases, arith, if◌then◌else◌,
}
use reimbursement_analyzer.Prelude.Text.Laws.{
  append-empty, append_assoc, length-append, concat-append,
}
use reimbursement_analyzer.Config.{max_body_bytes}
use reimbursement_analyzer.World.{Result, ok, raised}
use reimbursement_analyzer.Api.Payload.{
  Stream, finished, broken, chunk, too_large, enforce_max_body_bytes, read_chunks, read_capped,
}

-- All that the client sends, and how the stream ends once this text is read.
abbrev pub sent : Stream → String
sent finished = ""
sent (broken e) = ""
sent (chunk c rest) = Prelude.Text.append c (sent rest)

abbrev pub ending : String → Stream → Result String
ending body finished = ok body
ending body (broken e) = raised e
ending body (chunk c rest) = ending body rest

-- The whole body is read first, and then its size is tested.
abbrev pub read_all : String → Stream → Result String
read_all body s =
    if ltb max_body_bytes (Prelude.Text.length body) then raised too_large else ending body s

abbrev size_of : List String → ℕ
size_of chunks = Prelude.Text.length (Prelude.Text.concat chunks)

concat_snoc :
    (chunks : List String) (c : String)
    → Prelude.Text.concat (chunks ++ c ∷ []) ≡ Prelude.Text.append (Prelude.Text.concat chunks) c
unfolding Prelude.Text.concat
concat_snoc chunks c = rw concat-append (rw append-empty refl)

size_snoc :
    (chunks : List String) (c : String)
    → size_of (chunks ++ c ∷ []) ≡ size_of chunks + Prelude.Text.length c
size_snoc chunks c = rw (concat_snoc, length-append) refl

record IsRead (chunks : List String) (s : Stream) (p : Result String × List String) : Type 0 where
  result : p.0 ≡ read_all (Prelude.Text.append (Prelude.Text.concat chunks) (sent s)) s
  kept : size_of p.1 ≤ max_body_bytes

-- The chunk just read moves from what is sent to what is read.
sent_on :
    (chunks : List String) (c : String) (rest : Stream)
    → Prelude.Text.append (Prelude.Text.concat (chunks ++ c ∷ [])) (sent rest)
      ≡ Prelude.Text.append (Prelude.Text.concat chunks) (Prelude.Text.append c (sent rest))
sent_on chunks c rest = rw concat_snoc (append_assoc (Prelude.Text.concat chunks) c (sent rest))

IsRead-over :
    (total : ℕ) (chunks : List String) (c : String) (rest : Stream)
    → total ≡ size_of chunks
    → total ≤ max_body_bytes
    → ltb max_body_bytes (total + Prelude.Text.length c) ≡ true
    → IsRead chunks (chunk c rest) (raised too_large, chunks)
IsRead-over total chunks c rest e le over =
    let body = Prelude.Text.append c (sent rest) in
    let n = length-append (Prelude.Text.concat chunks) body in
    let m = length-append c (sent rest) in
    let big : ltb max_body_bytes
          (Prelude.Text.length (Prelude.Text.append (Prelude.Text.concat chunks) body))
        ≡ true =
      ground (arith, n, m) in
    record { result = rw big refl; kept = omega arith }

read_chunks-IsRead :
    (total : ℕ) (chunks : List String) (s : Stream)
    → total ≡ size_of chunks
    → total ≤ max_body_bytes
    → IsRead chunks s (read_chunks total chunks s)
unfolding read_chunks enforce_max_body_bytes
read_chunks-IsRead total chunks finished e le =
    let fits : ltb max_body_bytes (size_of chunks) ≡ false = ground arith in
    record { result = rw (append-empty, fits) refl; kept = omega arith }
read_chunks-IsRead total chunks (broken x) e le =
    let fits : ltb max_body_bytes (size_of chunks) ≡ false = ground arith in
    record { result = rw (append-empty, fits) refl; kept = omega arith }
read_chunks-IsRead total chunks (chunk c rest) e le =
    let size = total + Prelude.Text.length c in
    elim (Bool-cases (ltb max_body_bytes size)) [
      | inl over ↦ rw (over, read_chunks) (IsRead-over total chunks c rest e le over)
      | inr fits ↦
          let next =
            read_chunks-IsRead size (chunks ++ c ∷ []) rest (rw size_snoc (omega arith))
              (ground arith) in
          rw (fits, read_chunks)
            (record {
              result = next.result ∙ ap (λ b. read_all b rest) (sent_on chunks c rest);
              kept = next.kept;
            })
    ]

-- The capped read returns and raises what a read of the whole body with a test of its size
-- afterwards would: the text of all chunks, PayloadTooLarge as soon as there are more than 1048576
-- bytes, or the exception that ended the stream before that. But it never keeps more than 1048576
-- bytes, however many are sent.
pub read_capped-read_all :
    (s : Stream)
    → (read_capped s ≡ read_all (sent s) s)
      × (Prelude.Text.length (Prelude.Text.concat (read_chunks 0 [] s).1) ≤ max_body_bytes)
unfolding read_capped Prelude.Text.concat Prelude.Text.append
read_capped-read_all s = let r = read_chunks-IsRead 0 [] s refl (omega arith) in (r.result, r.kept)
