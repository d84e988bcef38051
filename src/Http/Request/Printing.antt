-- ===== src/Http/Request/Printing.antt =====
-- `parse` reads what a client prints.
use ivos.Base.{
  ◌≡◌, refl, sym, ◌∙◌, [], ◌∷◌, ◌++◌, append_assoc, append-nil, subst, none, some, done, arith,
}
use ivos.Http.Text.{Text, codes, find, string_split}
use ivos.Http.Text.Find.{Lacks, find-Lacks}
use ivos.Http.Text.Join.{string_split-join}
use ivos.Http.Request.{
  RequestType, Request, Fields, get, post, head, options, put, delete, field_get, new_request,
  space, colon, type_name, to_request_type, with_field, read_fields, read_content_type, parse,
}
use ivos.Http.Request.Lines.{
  IsClean, print_fields, print_request, IsField, AllFields, set_all, IsClean-append,
  remove_controls-IsClean, field_line, lines_of, clean_lines, IsIdle, join-lines_of,
  Pieces-lines_of, cleaned-lines_of,
}

split_field :
    (f : Text × Text) → IsField f → string_split (field_line f) colon ≡ done (f.0 ∷ f.1 ∷ [])
split_field f h =
    string_split-join b':' space f.0 (f.1 ∷ []) (h.no_colon, h.not_cut)
    ∙ rw (remove_controls-IsClean f.0 h.clean_name) refl

split_empty : string_split [] colon ≡ done ([] ∷ [])
unfolding string_split
split_empty = refl

read_fields-clean_lines :
    (behind : Text) (fs : Fields) (r : Request)
    → find colon behind ≡ none
    → AllFields fs
    → read_fields (clean_lines behind fs) r ≡ done (record r { fields = set_all fs r.fields })
unfolding read_fields
read_fields-clean_lines behind [] r idle all =
    rw (split_empty, string_split-join b':' space behind [] idle) refl
read_fields-clean_lines behind (f ∷ fs) r idle (h, all) =
    rw (split_field f h)
      (read_fields-clean_lines behind fs (with_field (f.0 ∷ f.1 ∷ []) r) idle all)

to_request_type-type_name : (t : RequestType) → to_request_type (type_name t) ≡ some t
to_request_type-type_name get = refl
to_request_type-type_name post = refl
to_request_type-type_name head = refl
to_request_type-type_name options = refl
to_request_type-type_name put = refl
to_request_type-type_name delete = refl

-- The name of a method has neither a control character nor a space.
pub IsClean-type_name : (t : RequestType) → IsClean (type_name t) × Lacks 0x20 (type_name t)
IsClean-type_name get = ground arith
IsClean-type_name post = ground arith
IsClean-type_name head = ground arith
IsClean-type_name options = ground arith
IsClean-type_name put = ground arith
IsClean-type_name delete = ground arith

abbrev first_line : RequestType → (path version : Text) → Text
first_line t path version = type_name t ++ (space ++ (path ++ (space ++ version)))

split_first_line :
    (t : RequestType) (path version : Text)
    → IsClean path
    → Lacks 0x20 path
    → Lacks 0x20 version
    → string_split (first_line t path version) space ≡ done (type_name t ∷ path ∷ version ∷ [])
split_first_line t path version clean lacks lacks' =
    string_split-join 0x20 [] (type_name t) (path ∷ version ∷ [])
      ((IsClean-type_name t).1, (lacks, find-Lacks 0x20 [] version lacks'))
    ∙ rw
        (
          remove_controls-IsClean (type_name t) (IsClean-type_name t).0,
          remove_controls-IsClean path clean,
        )
        refl

-- A printed head is read back whatever else stands behind it, if that is one line and no field.
pub parse-print_behind :
    (behind : Text) (t : RequestType) (path version : Text) (fs : Fields)
    → IsIdle behind
    → IsClean path
    → Lacks 0x20 path
    → IsClean version
    → Lacks 0x20 version
    → AllFields fs
    → field_get (codes "Content-Type") (set_all fs []) ≡ none
    → parse (print_request t path version fs ++ behind) new_request
      ≡ done (record new_request {
        type = some t;
        path = path;
        version = version;
        fields = set_all fs [];
      })
unfolding parse read_content_type
parse-print_behind behind t path version fs idle clean_path lacks_path clean_version lacks_version
      all plain =
    let line = first_line t path version in
    let clean =
      IsClean-append (type_name t) (space ++ (path ++ (space ++ version))) (IsClean-type_name t).0
        (refl, IsClean-append path (space ++ version) clean_path (refl, clean_version)) in
    rw
      (
        append_assoc line (13 ∷ 10 ∷ print_fields fs) behind,
        sym (join-lines_of behind line fs),
        string_split-join 10 [] (line ++ (13 ∷ [])) (lines_of behind fs)
            (Pieces-lines_of behind line fs idle.one_line clean all),
        cleaned-lines_of behind line fs clean all,
        split_first_line t path version clean_path lacks_path lacks_version,
        to_request_type-type_name t,
        read_fields-clean_lines behind fs
            (record new_request { type = some t; path = path; version = version }) idle.no_field
            all,
        plain,
      )
      refl

-- A request with a path and a version without spaces, and fields without control characters whose names
-- have no colon and whose values no colon before a space, none of them the content type, is read back
-- from its printed form: the method, the path, the version, and for each name the value of its last
-- field.
pub parse-print_request :
    (t : RequestType) (path version : Text) (fs : Fields)
    → IsClean path
    → Lacks 0x20 path
    → IsClean version
    → Lacks 0x20 version
    → AllFields fs
    → field_get (codes "Content-Type") (set_all fs []) ≡ none
    → parse (print_request t path version fs) new_request
      ≡ done (record new_request {
        type = some t;
        path = path;
        version = version;
        fields = set_all fs [];
      })
parse-print_request t path version fs clean_path lacks_path clean_version lacks_version all plain =
    subst
      (λ text.
        parse text new_request
        ≡ done (record new_request {
          type = some t;
          path = path;
          version = version;
          fields = set_all fs [];
        }))
      (append-nil (print_request t path version fs))
      (parse-print_behind [] t path version fs (record { one_line = tt; no_field = refl })
        clean_path lacks_path clean_version lacks_version all plain)
