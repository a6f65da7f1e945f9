-- ===== src/Client/Parse.antt =====
-- How the client reads the value out of the server's JSON text.
use cs389hw.Shared.{
  ℕ, ◌+◌, ◌%◌, ◌^◌, ◌<◌, ◌≤◌, false, some, [], ◌∷◌, ◌++◌, ◌≡◌, refl, sym, ap, ◌∙◌, arith, Bytes,
  Key, ok, nat_eq, contains, length, length-append, drop, text, take_append_self, le→leb,
}
use cs389hw.Shared.Int.{pos, u32, add_int, sub_int}
use cs389hw.Server.Targets.{begins_with}
use cs389hw.Client.{
  starts_with, find_text, find_int, value_mark, end_mark, substr, copy_string, cut_value,
  parse_answer,
}
use cs389hw.Client.Find.{Misses, find_text_here, find_text_append, drop_plus}

abbrev pub quote : ℕ
quote = b'"'

abbrev key_mark : Bytes
key_mark = text "{\"key\":\""

abbrev middle : Bytes
middle = text "\",\"value\":\""

-- The JSON text of a key and a value that need no escapes.
abbrev pub json_text : Key → Bytes → Bytes
json_text key val = key_mark ++ (key ++ (middle ++ (val ++ end_mark)))

-- No quotation mark, and no closing brace at the beginning.
pub record Plain (s : Bytes) : Type 0 where
  pub unquoted : contains quote s ≡ false
  pub unclosed : begins_with b'}' s ≡ false

-- A word without a quotation mark, and then `":"`, does not begin in a key.
starts_with-key :
    (w key s : Bytes)
    → contains quote w ≡ false
    → contains quote key ≡ false
    → starts_with (w ++ text "\":\"") (key ++ (quote ∷ b',' ∷ s)) ≡ false
starts_with-key [] [] s h k = refl
starts_with-key [] (c ∷ key) s h k = ground arith
starts_with-key (a ∷ w) [] s h k = ground arith
starts_with-key (a ∷ w) (c ∷ key) s h k = ground (arith, starts_with-key w key s)

Misses-key : (key s : Bytes) → contains quote key ≡ false → Misses value_mark key (quote ∷ b',' ∷ s)
Misses-key [] s h = tt
Misses-key (c ∷ key) s h =
    (starts_with-key (text "value") (c ∷ key) s refl h, Misses-key key s (ground arith))

Misses-end : (p s : Bytes) → contains quote p ≡ false → Misses end_mark p s
Misses-end [] s h = tt
Misses-end (c ∷ p) s h = (ground arith, Misses-end p s (ground arith))

starts_with-unclosed :
    (p s : Bytes)
    → begins_with b'}' p ≡ false
    → starts_with end_mark (quote ∷ p ++ quote ∷ s) ≡ false
starts_with-unclosed [] s h = refl
starts_with-unclosed (c ∷ p) s h = ground arith

module _ (key val : Bytes) (k : Plain key) (v : Plain val) where
  find_value : find_text value_mark (json_text key val) ≡ some (8 + (length key + 3))
  find_value =
      find_text_append value_mark key_mark _
        (refl, (refl, (refl, (refl, (refl, (refl, (refl, (refl, tt))))))))
        (find_text_append value_mark key _ (Misses-key key _ k.unquoted) (
          find_text_append value_mark (text "\",\"") _ (refl, (refl, (refl, tt)))
            (find_text_here value_mark (text "value\":\"" ++ (val ++ end_mark)) refl)))

  find_end :
      find_text end_mark (json_text key val) ≡ some (8 + (length key + (11 + (length val + 0))))
  find_end =
      find_text_append end_mark key_mark _
        (
          refl,
          (
            refl,
            (refl, (refl, (refl, (refl, (refl, (starts_with-unclosed key _ k.unclosed, tt)))))),
          ),
        )
        (find_text_append end_mark key _ (Misses-end key _ k.unquoted) (
          find_text_append end_mark middle _
            (
              refl,
              (
                refl,
                (
                  refl,
                  (
                    refl,
                    (
                      refl,
                      (
                        refl,
                        (refl, (refl, (refl, (refl, (starts_with-unclosed val _ v.unclosed, tt))))),
                      ),
                    ),
                  ),
                ),
              ),
            )
            (find_text_append end_mark val end_mark (Misses-end val _ v.unquoted)
              (find_text_here end_mark end_mark refl))))

copy_string_all : (s : Bytes) → copy_string (length s) s ≡ ok s
unfolding copy_string
copy_string_all [] = refl
copy_string_all (c ∷ s) = rw (copy_string_all s)

module _ (x : ℕ) (ret val rest : Bytes) where
  -- What stands between the marks is copied.
  cut_value_lem :
      x + 8 + length val < 2 ^ 31
      → x + 8 ≤ length ret
      → drop (x + 8) ret ≡ val ++ rest
      → cut_value (pos x) (pos (x + 8 + length val)) ret
        ≡ ok (some (val ++ 0 ∷ []), (length val + 1) % u32)
  unfolding cut_value substr
  cut_value_lem small inside at =
      let e1 : add_int (pos x) (pos 8) ≡ ok (pos (x + 8)) = ground arith in
      let e2 : sub_int (pos (x + 8 + length val)) (pos x) ≡ ok (pos (8 + length val)) =
        ground arith in
      let e3 : sub_int (pos (8 + length val)) (pos 8) ≡ ok (pos (length val)) = ground arith in
      let e4 : length val % u32 ≡ length val = omega arith in
      rw (
        e1,
        e2,
        e3,
        le→leb (x + 8) (length ret) inside,
        at,
        e4,
        take_append_self val rest,
        copy_string_all val,
      )

module _ (key val : Bytes) (k : Plain key) (v : Plain val)
    (small : length key + length val + 32 < 2 ^ 31) where
  drop_front : drop (8 + (length key + (11 + 0))) (json_text key val) ≡ val ++ end_mark
  drop_front =
      drop_plus key_mark (key ++ (middle ++ (val ++ end_mark))) (length key + (11 + 0))
      ∙ drop_plus key (middle ++ (val ++ end_mark)) (11 + 0)
      ∙ drop_plus middle (val ++ end_mark) 0

  length_json : 8 + (length key + (11 + 0)) ≤ length (json_text key val)
  length_json =
      omega (arith, length-append key (middle ++ (val ++ end_mark)), length-append val end_mark)

  find_int_lem : (t s : Bytes) (i : ℕ) → find_text t s ≡ some i → i < 2 ^ 31 → find_int t s ≡ pos i
  find_int_lem t s i e h = rw (find_int, e) (ground arith)

  -- The client takes the value out of the JSON text of the server, if neither the key nor the
  -- value has a quotation mark or begins with a closing brace.
  pub parse_answer_lem :
      parse_answer (json_text key val) ≡ ok (some (val ++ 0 ∷ []), (length val + 1) % u32)
  unfolding parse_answer
  parse_answer_lem =
      let x = 8 + (length key + 3) in
      let e1 : find_int value_mark (json_text key val) ≡ pos x =
        find_int_lem value_mark (json_text key val) x (find_value key val k v) (omega arith) in
      let y : 8 + (length key + (11 + (length val + 0))) ≡ x + 8 + length val = omega arith in
      let e2 : find_int end_mark (json_text key val) ≡ pos (x + 8 + length val) =
        find_int_lem end_mark (json_text key val) (x + 8 + length val)
          (find_end key val k v ∙ ap some y) (omega arith) in
      let front : 8 + (length key + (11 + 0)) ≡ x + 8 = omega arith in
      ap (λ i. cut_value i (find_int end_mark (json_text key val)) (json_text key val)) e1
      ∙ ap (λ i. cut_value (pos x) i (json_text key val)) e2
      ∙ cut_value_lem x (json_text key val) val end_mark (omega arith) (omega (arith, length_json))
          (ap (λ n. drop n (json_text key val)) (sym front) ∙ drop_front)
