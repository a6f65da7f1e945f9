-- ===== src/Client/SpaceUsed.antt =====
-- `space_used`: the number travels as a header field.
use cs389hw.Shared.{
  ℕ, ◌+◌, ◌^◌, ◌<◌, true, [], ◌∷◌, ◌++◌, ◌≡◌, refl, ◌∙◌, arith, Bytes, Result, ok, ◌>>=◌, nat_eq,
  leb, length, length-append, drop, text,
}
use cs389hw.Shared.Int.{pos, add_int}
use cs389hw.Shared.Decimal.{to_text, stoi, stoi-to_text}
use cs389hw.Server.{Response}
use cs389hw.Client.{to_size, find_int, find_text, substr, space_mark}
use cs389hw.Client.Find.{drop_plus}

-- The lines of a header before the field, and after its value.
abbrev pub front : Bytes
front =
    text "HTTP/1.1 200 OK\r\n"
    ++ (text "Accept: text/json\r\n" ++ text "Content-Type: application/json\r\n")

abbrev pub back : Bytes
back = text "\r\n\r\n"

-- What Boost.Beast documents of the text of a header: the status line, and a line for each field
-- in the order in which they were set.
abbrev pub Prints : (Response → Bytes) → Type 0
Prints print =
    (r : Response) (v : Bytes)
    → r.status ≡ 200
    → r.version ≡ 11
    → r.fields
      ≡ (text "Space-Used", v)
        ∷ (text "Content-Type", text "application/json")
        ∷ (text "Accept", text "text/json")
        ∷ []
    → print r ≡ front ++ (space_mark ++ (v ++ back))

find_space : (s : Bytes) → find_int space_mark (front ++ (space_mark ++ s)) ≡ pos (length front)
unfolding find_text
find_space s = refl

-- The client's way from the text of the header to the number.
abbrev pub read_space : {W : Type 0} → W → Bytes → Result (ℕ × W)
read_space w t = add_int (find_int space_mark t) (pos 12) >>= λ from.
    substr (to_size from) t >>= λ space_used. stoi space_used >>= λ ret. ok (ret, w)

pub read_space_lem :
    {W : Type 0} (w : W) (n : ℕ)
    → n < 2 ^ 31
    → read_space w (front ++ (space_mark ++ (to_text n ++ back))) ≡ ok (n, w)
unfolding substr
read_space_lem w n small =
    let s = to_text n ++ back in
    let t = front ++ (space_mark ++ s) in
    let inside : leb (length front + 12) (length t) ≡ true =
      ground (arith, length-append front (space_mark ++ s), length-append space_mark s) in
    let behind : drop (length front + 12) t ≡ s =
      drop_plus front (space_mark ++ s) 12 ∙ drop_plus space_mark s 0 in
    rw (find_space s, inside, behind, stoi-to_text n back small refl) refl
