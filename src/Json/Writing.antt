-- ===== src/Json/Writing.antt =====
-- The calls of the writer of src/json.cpp, one after the other.
use nano_sensor.Base.{
  ℕ, suc, ◌+◌, ◌≡◌, refl, ap, ◌∙◌, Bool, true, false, ◌&&◌, List, [], ◌∷◌, ◌++◌, ltb, if◌then◌else◌,
  length, arith,
}
use mathlib.Core.List.{append_assoc, append-nil}
use nano_sensor.Text.{Bytes, codes}
use nano_sensor.Json.{
  emit, push, close_with, indent, JsonWriter, json_writer, newline_indent, separator, write_quoted,
  write_key, begin_object, begin_object_key, begin_array, end_object, end_array, field, field_bool,
  field_double, field_i64, field_null, value,
}
use nano_sensor.Json.Document.{
  Members, no_members, member, Value, text, truth, decimal, integer, null, object, array, Elements,
  no_elements, text_element, object_element, write_members, write_value, write_elements,
  write_document, count_members, count_elements, line, lead, bracketed, quoted, keyed, members_text,
  value_text, elements_text,
}

module _ (pretty : Bool) where
  -- A writer inside containers, n elements into the innermost.
  abbrev pub inside : Bytes → ℕ → List ℕ → JsonWriter
  inside o n ns = record { out = o; counts = n ∷ ns; pretty = pretty }

  separator_lem :
      (o : Bytes) (n : ℕ) (ns : List ℕ)
      → separator (inside o n ns) ≡ inside (o ++ lead pretty (suc (length ns)) n) (suc n) ns
  unfolding separator newline_indent
  separator_lem o n ns = ground (
    arith,
    append_assoc o (if ltb 0 n then codes "," else []) (line pretty (suc (length ns))),
    append-nil (o ++ (if ltb 0 n then codes "," else [])),
  )

  quoted_lem :
      (s o : Bytes) (n : ℕ) (ns : List ℕ)
      → write_quoted s (inside o n ns) ≡ inside (o ++ quoted s) n ns
  unfolding write_quoted
  quoted_lem s o n ns = rw append_assoc (rw append_assoc)

  keyed_lem :
      (key o : Bytes) (n : ℕ) (ns : List ℕ)
      → write_key key (separator (inside o n ns))
        ≡ inside (o ++ (lead pretty (suc (length ns)) n ++ keyed pretty key)) (suc n) ns
  unfolding write_key
  keyed_lem key o n ns =
      rw (separator_lem o n ns, quoted_lem key)
        (ap (λ (t : Bytes). inside t (suc n) ns) (simp append_assoc))

  -- A key and a scalar value behind it.
  scalar_lem :
      (key s o : Bytes) (n : ℕ) (ns : List ℕ)
      → emit s (write_key key (separator (inside o n ns)))
        ≡ inside (o ++ (lead pretty (suc (length ns)) n ++ (keyed pretty key ++ s))) (suc n) ns
  scalar_lem key s o n ns =
      rw (keyed_lem key o n ns) (ap (λ (t : Bytes). inside t (suc n) ns) (simp append_assoc))

  trail_emitted :
      (p b : Bool) (right o : Bytes) (ns : List ℕ) (w : JsonWriter)
      → w ≡ record { out = o; counts = ns; pretty = p }
      → emit right (if p && b then emit (indent ns) w else w) ≡ record {
        out = o ++ ((if b then line p (length ns) else []) ++ right);
        counts = ns;
        pretty = p;
      }
  trail_emitted true true right o ns w e = rw e (rw append_assoc)
  trail_emitted true false right o ns w e = rw e
  trail_emitted false true right o ns w e = rw e
  trail_emitted false false right o ns w e = rw e

  closed_lem :
      (left right body o : Bytes) (m : ℕ) (ns : List ℕ)
      → close_with right (inside ((o ++ left) ++ body) m ns) ≡ record {
        out = o ++ bracketed pretty (length ns) left right m body;
        counts = ns;
        pretty = pretty;
      }
  closed_lem left right body o m ns =
      trail_emitted pretty (ltb 0 m) right ((o ++ left) ++ body) ns _ refl
      ∙ ap (λ (t : Bytes). record { out = t; counts = ns; pretty = pretty }) (simp append_assoc)

  opened_lem :
      (key bracket o : Bytes) (n : ℕ) (ns : List ℕ)
      → push bracket (write_key key (separator (inside o n ns)))
        ≡ inside
            ((o ++ (lead pretty (suc (length ns)) n ++ keyed pretty key)) ++ bracket)
            0
            ((suc n) ∷ ns)
  opened_lem key bracket o n ns = rw (keyed_lem key o n ns) refl

  opened_element :
      (bracket o : Bytes) (n : ℕ) (ns : List ℕ)
      → push bracket (separator (inside o n ns))
        ≡ inside ((o ++ lead pretty (suc (length ns)) n) ++ bracket) 0 ((suc n) ∷ ns)
  opened_element bracket o n ns = rw (separator_lem o n ns) refl

  -- Two texts in a row, where the second is counted from behind the first.
  regroup : (o l k v : Bytes) → (o ++ (l ++ k)) ++ v ≡ o ++ (l ++ (k ++ v))
  regroup o l k v = simp append_assoc

  next_text :
      (o a b : Bytes) (n m : ℕ) (ns : List ℕ)
      → inside ((o ++ a) ++ b) (suc n + m) ns ≡ inside (o ++ (a ++ b)) (n + suc m) ns
  next_text o a b n m ns =
      let e : suc n + m ≡ n + suc m = omega arith in rw (e, append_assoc o a b) refl

  nothing_added : (o : Bytes) (n : ℕ) (ns : List ℕ) → inside o n ns ≡ inside (o ++ []) (n + 0) ns
  nothing_added o n ns = let e : n + 0 ≡ n = omega arith in rw (e, append-nil o) refl

  closed_members :
      (ms : Members) (o : Bytes) (ns : List ℕ)
      → close_with (codes "}") (
          inside
            ((o ++ codes "{") ++ members_text pretty (suc (length ns)) 0 ms)
            (0 + count_members ms)
            ns)
        ≡ record {
          out = o ++ value_text pretty (length ns) (object ms);
          counts = ns;
          pretty = pretty;
        }
  unfolding value_text
  closed_members ms o ns =
      let z : 0 + count_members ms ≡ count_members ms = omega arith in
      rw z (closed_lem (codes "{") (codes "}") _ o (count_members ms) ns)

  closed_elements :
      (es : Elements) (o : Bytes) (ns : List ℕ)
      → close_with (codes "]") (
          inside
            ((o ++ codes "[") ++ elements_text pretty (suc (length ns)) 0 es)
            (0 + count_elements es)
            ns)
        ≡ record {
          out = o ++ value_text pretty (length ns) (array es);
          counts = ns;
          pretty = pretty;
        }
  unfolding value_text
  closed_elements es o ns =
      let z : 0 + count_elements es ≡ count_elements es = omega arith in
      rw z (closed_lem (codes "[") (codes "]") _ o (count_elements es) ns)

  mutual
    unfolding write_members write_value write_elements members_text value_text elements_text
        begin_object begin_object_key begin_array end_object end_array field field_bool field_double
        field_i64 field_null value

    members_lem :
        (ms : Members) (o : Bytes) (n : ℕ) (ns : List ℕ)
        → write_members ms (inside o n ns)
          ≡ inside (o ++ members_text pretty (suc (length ns)) n ms) (n + count_members ms) ns
    members_lem no_members o n ns = nothing_added o n ns
    members_lem (member key v ms) o n ns =
        rw (value_lem key v o n ns, members_lem ms _ (suc n) ns)
          (next_text o _ _ n (count_members ms) ns)

    value_lem :
        (key : Bytes) (v : Value) (o : Bytes) (n : ℕ) (ns : List ℕ)
        → write_value key v (inside o n ns)
          ≡ inside
              (o
                ++ (lead pretty (suc (length ns)) n
                    ++ (keyed pretty key ++ value_text pretty (suc (length ns)) v)))
              (suc n)
              ns
    value_lem key (text s) o n ns = rw (keyed_lem key o n ns, quoted_lem s) (rw regroup refl)
    value_lem key (truth b) o n ns = scalar_lem key _ o n ns
    value_lem key (decimal s) o n ns = scalar_lem key s o n ns
    value_lem key (integer i) o n ns = scalar_lem key _ o n ns
    value_lem key null o n ns = scalar_lem key _ o n ns
    value_lem key (object ms) o n ns =
        rw (opened_lem key (codes "{") o n ns, members_lem ms _ 0 (suc n ∷ ns))
          (closed_members ms _ (suc n ∷ ns) ∙ rw regroup refl)
    value_lem key (array es) o n ns =
        rw (opened_lem key (codes "[") o n ns, elements_lem es _ 0 (suc n ∷ ns))
          (closed_elements es _ (suc n ∷ ns) ∙ rw regroup refl)

    elements_lem :
        (es : Elements) (o : Bytes) (n : ℕ) (ns : List ℕ)
        → write_elements es (inside o n ns)
          ≡ inside (o ++ elements_text pretty (suc (length ns)) n es) (n + count_elements es) ns
    elements_lem no_elements o n ns = nothing_added o n ns
    elements_lem (text_element s es) o n ns =
        rw (separator_lem o n ns, quoted_lem s, elements_lem es _ (suc n) ns)
          (rw (append_assoc o) (next_text o _ _ n (count_elements es) ns))
    elements_lem (object_element ms es) o n ns =
        rw
          (
            opened_element (codes "{") o n ns,
            members_lem ms _ 0 (suc n ∷ ns),
            closed_members ms (o ++ lead pretty (suc (length ns)) n) (suc n ∷ ns),
            elements_lem es _ (suc n) ns,
          )
          (rw (append_assoc o) (next_text o _ _ n (count_elements es) ns))

root_opened : (pretty : Bool) → begin_object (json_writer pretty) ≡ inside pretty (codes "{") 0 []
unfolding begin_object separator newline_indent
root_opened true = refl
root_opened false = refl

-- From an empty writer, plain or pretty, the calls for a document leave exactly its text: every
-- container closed behind its own elements, a comma before each element but the first, and in
-- pretty form each element on a line of its own, indented by twice the number of open containers.
pub write_document-value_text :
    (pretty : Bool) (ms : Members)
    → write_document ms (json_writer pretty) ≡ value_text pretty 0 (object ms)
unfolding write_document end_object
write_document-value_text pretty ms =
    ap (λ (w : JsonWriter). (close_with (codes "}") (write_members ms w)).out) (root_opened pretty)
    ∙ ap (λ (w : JsonWriter). (close_with (codes "}") w).out)
        (members_lem pretty ms (codes "{") 0 [])
    ∙ ap (λ (w : JsonWriter). w.out) (closed_members pretty ms [] [])
