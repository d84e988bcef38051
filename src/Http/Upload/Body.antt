-- ===== src/Http/Upload/Body.antt =====
-- The body of an upload in which no further part starts.
use ivos.Base.{
  ℕ, ◌+◌, ◌≤◌, ◌<◌, ◌≡◌, refl, ≤→leb, <→leb, List, [], ◌∷◌, ◌++◌, append_assoc, append-nil, none,
  done, arith, length, add-zero,
}
use ivos.Http.Text.{Text, find}
use ivos.Http.Client.{Reading, chunk, until_zero}
use ivos.Http.Upload.{Upload, write_to, take_body, receive_body}

abbrev pub total : List (Text × Text) → ℕ
total [] = 0
total ((bytes, beyond) ∷ reads) = length bytes + total reads

abbrev pub reads_of : List (Text × Text) → List (Reading × Text)
reads_of [] = []
reads_of ((bytes, beyond) ∷ reads) = (chunk bytes, beyond) ∷ reads_of reads

-- With `k` bytes received of `n`, all reads are made and the last one reaches `n`.
abbrev pub Fills : (n k : ℕ) → List (Text × Text) → Type 0
Fills n k [] = n ≤ k
Fills n k ((bytes, beyond) ∷ reads) = (k < n) × Fills n (k + length bytes) reads

-- No boundary is seen in a buffer.
abbrev pub AllPlain : (boundary : Text) → List (Text × Text) → Type 0
AllPlain boundary [] = Unit {0}
AllPlain boundary ((bytes, beyond) ∷ reads) =
    (find boundary (until_zero (bytes ++ beyond)) ≡ none) × AllPlain boundary reads

-- What is appended to the file.
abbrev pub pieces_of : (filename : Text) → List (Text × Text) → List (Text × Text)
pieces_of filename [] = []
pieces_of filename ((bytes, beyond) ∷ reads) = (filename, bytes) ∷ pieces_of filename reads

take_body-plain :
    (boundary bytes beyond : Text) (u : Upload)
    → find boundary (until_zero (bytes ++ beyond)) ≡ none
    → take_body boundary bytes beyond u ≡ done (write_to u bytes)
unfolding take_body
take_body-plain boundary bytes beyond u h = rw h refl

add_assoc : (a b c : ℕ) → (a + b) + c ≡ a + (b + c)
add_assoc a b c = omega arith

-- When the reads bring as many bytes as the request announces, the last read not before, and no boundary
-- is seen in them: the loop ends, all bytes have been written to the open file, in order, and counted.
pub receive_body-Fills :
    (boundary : Text) (n : ℕ) (reads : List (Text × Text)) (u : Upload)
    → Fills n u.current_length reads
    → AllPlain boundary reads
    → receive_body boundary n (reads_of reads) u
      ≡ done (record u {
        writes = u.writes ++ pieces_of u.filename reads;
        current_length = u.current_length + total reads;
      })
unfolding receive_body
receive_body-Fills boundary n [] u fills plain =
    rw (append-nil u.writes, add-zero u.current_length, ≤→leb n u.current_length fills) refl
receive_body-Fills boundary n ((bytes, beyond) ∷ reads) u (more, fills) (none_seen, plain) =
    let next = record (write_to u bytes) { current_length = u.current_length + length bytes } in
    rw
      (
        <→leb u.current_length n more,
        take_body-plain boundary bytes beyond u none_seen,
        receive_body-Fills boundary n reads next fills plain,
        append_assoc u.writes ((u.filename, bytes) ∷ []) (pieces_of u.filename reads),
        add_assoc u.current_length (length bytes) (total reads),
      )
      refl
