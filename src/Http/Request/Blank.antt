-- ===== src/Http/Request/Blank.antt =====
-- The blank line of a printed request is its end.
use ivos.Base.{
  suc-add, ℕ, suc, ◌+◌, ◌≤◌, ◌≡◌, ◌==◌, false, refl, ap, ◌∙◌, [], ◌∷◌, ◌++◌, some, arith, length,
}
use ivos.Http.Text.{Text, later, find}
use ivos.Http.Text.Find.{Lacks, find-skip}
use ivos.Http.Text.Join.{length-append}
use ivos.Http.Request.{RequestType, Fields, space, colon, crlf, type_name}
use ivos.Http.Request.Lines.{
  IsClean, IsClean-append, IsField, AllFields, print_fields, print_request,
}
use ivos.Http.Request.Printing.{IsClean-type_name}

-- The first blank line is at the end.
pub record EndsBlank (s : Text) : Type 0 where
  pub place : ℕ
  pub found : find (crlf ++ crlf) s ≡ some place
  pub last : place + 4 ≡ length s

pub Lacks-append : (c : ℕ) (s t : Text) → Lacks c s → Lacks c t → Lacks c (s ++ t)
Lacks-append c [] t hs ht = ht
Lacks-append c (x ∷ s) t (h, hs) ht = (h, Lacks-append c s t hs ht)

IsClean-Lacks : (c : ℕ) (s : Text) → c ≤ 31 → IsClean s → Lacks c s
IsClean-Lacks c [] small h = tt
IsClean-Lacks c (x ∷ s) small (h, hs) = (ground arith, IsClean-Lacks c s small hs)

EndsBlank-append : (t rest : Text) → Lacks 13 t → EndsBlank rest → EndsBlank (t ++ rest)
EndsBlank-append t rest lacks e = record {
  place = length t + e.place;
  found = find-skip 13 (10 ∷ crlf) t rest lacks ∙ rw e.found refl;
  last = rw (length-append t rest) (omega (arith, e.last));
}

find-later :
    (x : ℕ) (s : Text)
    → (13 == x) ≡ false
    → later (find (crlf ++ crlf) s) ≡ find (crlf ++ crlf) (x ∷ s)
find-later x s h = rw h refl

EndsBlank-line :
    (x : ℕ) (s : Text) → (13 == x) ≡ false → EndsBlank (x ∷ s) → EndsBlank (13 ∷ 10 ∷ x ∷ s)
EndsBlank-line x s h e = record {
  place = suc (suc e.place);
  found = rw h (ap (λ o. later (later o)) (find-later x s h ∙ e.found));
  last = rw (suc-add (suc e.place) 4, suc-add e.place 4, e.last) refl;
}

EndsBlank-field :
    (f : Text × Text) (rest : Text)
    → IsField f
    → EndsBlank ((f.0 ++ (colon ++ f.1)) ++ rest)
    → EndsBlank (13 ∷ 10 ∷ ((f.0 ++ (colon ++ f.1)) ++ rest))
EndsBlank-field ([], value) rest h e = EndsBlank-line b':' _ refl e
EndsBlank-field (x ∷ name, value) rest h e =
    let clean = h.clean_name.0 in EndsBlank-line x _ (ground arith) e

print_fields-EndsBlank :
    (t : Text) (fs : Fields)
    → Lacks 13 t
    → AllFields fs
    → EndsBlank (t ++ (13 ∷ 10 ∷ print_fields fs))
print_fields-EndsBlank t [] lacks all =
    EndsBlank-append t (crlf ++ crlf) lacks (record { place = 0; found = refl; last = refl })
print_fields-EndsBlank t (f ∷ fs) lacks (h, all) = EndsBlank-append t _ lacks (
    EndsBlank-field f (13 ∷ 10 ∷ print_fields fs) h (
      print_fields-EndsBlank (f.0 ++ (colon ++ f.1)) fs
        (Lacks-append 13 f.0 (colon ++ f.1) (IsClean-Lacks 13 f.0 (omega arith) h.clean_name)
          (refl, (refl, IsClean-Lacks 13 f.1 (omega arith) h.clean_value)))
        all))

first_line-IsClean :
    (t : RequestType) (path version : Text)
    → IsClean path
    → IsClean version
    → IsClean (type_name t ++ (space ++ (path ++ (space ++ version))))
first_line-IsClean t path version clean_path clean_version =
    IsClean-append (type_name t) (space ++ (path ++ (space ++ version))) (IsClean-type_name t).0
      (refl, IsClean-append path (space ++ version) clean_path (refl, clean_version))

pub print_request-EndsBlank :
    (t : RequestType) (path version : Text) (fs : Fields)
    → IsClean path
    → IsClean version
    → AllFields fs
    → EndsBlank (print_request t path version fs)
print_request-EndsBlank t path version fs clean_path clean_version all =
    print_fields-EndsBlank _ fs
      (IsClean-Lacks 13 _ (omega arith)
        (first_line-IsClean t path version clean_path clean_version))
      all

print_fields-no_zero :
    (t : Text) (fs : Fields) → IsClean t → AllFields fs → Lacks 0 (t ++ (13 ∷ 10 ∷ print_fields fs))
print_fields-no_zero t [] clean all =
    Lacks-append 0 t (crlf ++ crlf) (IsClean-Lacks 0 t (omega arith) clean) (ground arith)
print_fields-no_zero t (f ∷ fs) clean (h, all) =
    Lacks-append 0 t _ (IsClean-Lacks 0 t (omega arith) clean) (
      refl,
      (
        refl,
        print_fields-no_zero (f.0 ++ (colon ++ f.1)) fs
            (IsClean-append f.0 (colon ++ f.1) h.clean_name (refl, (refl, h.clean_value))) all,
      ),
    )

pub print_request-no_zero :
    (t : RequestType) (path version : Text) (fs : Fields)
    → IsClean path
    → IsClean version
    → AllFields fs
    → Lacks 0 (print_request t path version fs)
print_request-no_zero t path version fs clean_path clean_version all =
    print_fields-no_zero _ fs (first_line-IsClean t path version clean_path clean_version) all
