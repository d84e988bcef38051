-- ===== src/Http/Request/Lines.antt =====
-- The head of a request as a client prints it, and its lines.
use ivos.Base.{◌≡◌, false, refl, ap, sym, ◌∙◌, List, [], ◌∷◌, ◌++◌, append_assoc, none, arith}
use ivos.Http.Text.{Text, find, is_control, remove_controls}
use ivos.Http.Text.Find.{Lacks, find-Lacks}
use ivos.Http.Text.Split.{join, cleaned}
use ivos.Http.Text.Join.{Pieces}
use ivos.Http.Request.{RequestType, Fields, field_set, newline, space, colon, crlf, type_name}

-- No byte is a control character.
abbrev pub IsClean : Text → Type 0
IsClean [] = Unit {0}
IsClean (c ∷ s) = (is_control c ≡ false) × IsClean s

-- The head of a request, as HTTP has it.
abbrev pub print_fields : Fields → Text
print_fields [] = crlf
print_fields ((name, value) ∷ fs) = (name ++ (colon ++ value)) ++ (13 ∷ 10 ∷ print_fields fs)

abbrev pub print_request : RequestType → (path version : Text) → Fields → Text
print_request t path version fs =
    (type_name t ++ (space ++ (path ++ (space ++ version)))) ++ (13 ∷ 10 ∷ print_fields fs)

-- A field that can be read back.
pub record IsField (f : Text × Text) : Type 0 where
  pub clean_name : IsClean f.0
  pub clean_value : IsClean f.1
  pub no_colon : Lacks b':' f.0
  pub not_cut : find colon f.1 ≡ none

abbrev pub AllFields : Fields → Type 0
AllFields [] = Unit {0}
AllFields (f ∷ fs) = IsField f × AllFields fs

-- The fields assigned in turn: the last one of a name counts.
abbrev pub set_all : Fields → Fields → Fields
set_all [] into = into
set_all ((name, value) ∷ fs) into = set_all fs (field_set name value into)

pub IsClean-append : (s t : Text) → IsClean s → IsClean t → IsClean (s ++ t)
IsClean-append [] t hs ht = ht
IsClean-append (c ∷ s) t (h, hs) ht = (h, IsClean-append s t hs ht)

pub remove_controls-IsClean : (s : Text) → IsClean s → remove_controls s ≡ s
remove_controls-IsClean [] h = refl
remove_controls-IsClean (c ∷ s) (h, hs) = rw (h, remove_controls-IsClean s hs) refl

pub remove_controls-return : (s : Text) → IsClean s → remove_controls (s ++ (13 ∷ [])) ≡ s
remove_controls-return [] h = refl
remove_controls-return (c ∷ s) (h, hs) = rw (h, remove_controls-return s hs) refl

pub Lacks-return : (s : Text) → IsClean s → Lacks 10 (s ++ (13 ∷ []))
Lacks-return [] h = (refl, tt)
Lacks-return (c ∷ s) (h, hs) = (ground arith, Lacks-return s hs)

abbrev pub field_line : Text × Text → Text
field_line f = f.0 ++ (colon ++ f.1)

-- What stands behind the head is a last line.
abbrev pub lines_of : (behind : Text) → Fields → List Text
lines_of behind [] = (13 ∷ []) ∷ behind ∷ []
lines_of behind (f ∷ fs) = (field_line f ++ (13 ∷ [])) ∷ lines_of behind fs

abbrev pub clean_lines : (behind : Text) → Fields → List Text
clean_lines behind [] = [] ∷ behind ∷ []
clean_lines behind (f ∷ fs) = field_line f ∷ clean_lines behind fs

-- A text that is one line, and no field.
pub record IsIdle (behind : Text) : Type 0 where
  pub one_line : Lacks 10 behind
  pub no_field : find colon behind ≡ none

pub IsClean-field_line : (f : Text × Text) → IsField f → IsClean (field_line f)
IsClean-field_line f h =
    IsClean-append f.0 (colon ++ f.1) h.clean_name (refl, (refl, h.clean_value))

pub join-lines_of :
    (behind t : Text) (fs : Fields)
    → join newline ((t ++ (13 ∷ [])) ∷ lines_of behind fs)
      ≡ t ++ (13 ∷ 10 ∷ (print_fields fs ++ behind))
join-lines_of behind t [] = append_assoc t (13 ∷ []) (10 ∷ (crlf ++ behind))
join-lines_of behind t (f ∷ fs) =
    append_assoc t (13 ∷ []) (10 ∷ join newline ((field_line f ++ (13 ∷ [])) ∷ lines_of behind fs))
    ∙ ap (λ rest. t ++ (13 ∷ 10 ∷ rest))
        (join-lines_of behind (field_line f) fs
          ∙ sym (append_assoc (field_line f) (13 ∷ 10 ∷ print_fields fs) behind))

pub Pieces-lines_of :
    (behind t : Text) (fs : Fields)
    → Lacks 10 behind
    → IsClean t
    → AllFields fs
    → Pieces 10 [] ((t ++ (13 ∷ [])) ∷ lines_of behind fs)
Pieces-lines_of behind t [] one h all =
    (Lacks-return t h, ((refl, tt), find-Lacks 10 [] behind one))
Pieces-lines_of behind t (f ∷ fs) one h (hf, all) =
    (Lacks-return t h, Pieces-lines_of behind (field_line f) fs one (IsClean-field_line f hf) all)

pub cleaned-lines_of :
    (behind t : Text) (fs : Fields)
    → IsClean t
    → AllFields fs
    → cleaned ((t ++ (13 ∷ [])) ∷ lines_of behind fs) ≡ t ∷ clean_lines behind fs
cleaned-lines_of behind t [] h all = rw (remove_controls-return t h) refl
cleaned-lines_of behind t (f ∷ fs) h (hf, all) =
    rw
      (
        remove_controls-return t h,
        cleaned-lines_of behind (field_line f) fs (IsClean-field_line f hf) all,
      )
      refl
