-- ===== src/Http/Headers.antt =====
-- The headers of a request, in http/mgx_http_socket.cpp.
use my_gx.Base.{
  ℕ, ◌≤◌, List, [], ◌∷◌, ◌++◌, append-nil, true, some, ◌==◌, length, length-append, ◌≡◌, refl, sym,
  ap, ap₂, ◌∙◌, arith,
}
use my_gx.Conf.{Configs, strim, find_from}
use my_gx.Conf.Spaces.{IsTrimmed, strim_around}
use my_gx.Conf.Lines.{HasNo, HasNo-append, find_from-append, key_of-append, val_of-append}
use my_gx.Http.{
  Peek, cr, lf, recv_buf_size, got, http_read_request_head, put_header, put_headers, strtok,
  http_parse_request_head,
}
use my_gx.Http.Line.{no_zero}
use my_gx.Http.Head.{AllThere, wire, joined, IsLine, AllLines, read_head-wire, strtok-joined}

-- A header with its name and its value, as it is written.
pub record Header : Type 0 where
  pub key : List ℕ
  pub val : List ℕ

unfoldable pub line_of : Header → List ℕ
line_of h = h.key ++ (b':' ∷ b' ' ∷ h.val)

pub record IsHeader (h : Header) : Type 0 where
  pub key : IsTrimmed h.key
  pub val : IsTrimmed h.val
  pub no_colon : HasNo b':' h.key
  pub key_no_cr : HasNo cr h.key
  pub key_no_lf : HasNo lf h.key
  pub val_no_cr : HasNo cr h.val
  pub val_no_lf : HasNo lf h.val

abbrev pub AllHeaders : List Header → Type 0
AllHeaders [] = Unit {0}
AllHeaders (h ∷ hs) = IsHeader h × AllHeaders hs

unfoldable pub lines_of : List Header → List (List ℕ)
lines_of [] = []
lines_of (h ∷ hs) = line_of h ∷ lines_of hs

unfoldable pub put_all : List Header → Configs → Configs
put_all [] headers = headers
put_all (h ∷ hs) headers = put_all hs ((h.key, h.val) ∷ headers)

line_of-IsLine : (h : Header) → IsHeader h → IsLine (line_of h)
unfolding line_of
line_of-IsLine h i = record {
  nonempty = omega (arith, length-append h.key (b':' ∷ b' ' ∷ h.val));
  no_cr = HasNo-append cr h.key _ i.key_no_cr (refl, (refl, i.val_no_cr));
  no_lf = HasNo-append lf h.key _ i.key_no_lf (refl, (refl, i.val_no_lf));
}

lines_of-AllLines : (hs : List Header) → AllHeaders hs → AllLines (lines_of hs)
unfolding lines_of
lines_of-AllLines [] all = tt
lines_of-AllLines (h ∷ hs) (i, all) = (line_of-IsLine h i, lines_of-AllLines hs all)

put_header-line_of :
    (h : Header) (headers : Configs)
    → IsHeader h
    → put_header (line_of h) headers ≡ (h.key, h.val) ∷ headers
unfolding put_header line_of
put_header-line_of h headers i =
    let y = b' ' ∷ h.val in
    let at : find_from (λ b. b == b':') 0 (h.key ++ (b':' ∷ y)) ≡ some (length h.key) =
      find_from-append b':' 0 h.key y i.no_colon ∙ ap some (omega arith) in
    let key : strim h.key ≡ h.key =
      ap strim (sym (append-nil h.key)) ∙ strim_around 0 0 h.key i.key in
    let val : strim y ≡ h.val =
      ap (λ l. strim (b' ' ∷ l)) (sym (append-nil h.val)) ∙ strim_around 1 0 h.val i.val in
    rw at (
      ap₂ (λ (k v : List ℕ). (k, v) ∷ headers) (ap strim (key_of-append b':' h.key y) ∙ key)
        (ap strim (val_of-append b':' h.key y) ∙ val))

put_headers-lines_of :
    (hs : List Header) (headers : Configs)
    → AllHeaders hs
    → put_headers (lines_of hs) headers ≡ put_all hs headers
unfolding put_headers lines_of put_all
put_headers-lines_of [] headers all = refl
put_headers-lines_of (h ∷ hs) headers (i, all) =
    ap (put_headers (lines_of hs)) (put_header-line_of h headers i)
    ∙ put_headers-lines_of hs ((h.key, h.val) ∷ headers) all

-- A head of at least one header that is sent line by line, with an empty line behind it, and that
-- fits into recv_buf and has no 0, is read from the stream as a whole, and its headers are put into the map, each
-- name with its value, if two bytes have come whenever it is peeked at them, and the byte behind them in
-- memory is 0.
pub request_head_read :
    (peek : ℕ → Peek) (h : Header) (hs : List Header) (headers : Configs) (rest : List ℕ)
    → AllThere peek
    → AllHeaders (h ∷ hs)
    → length (joined (line_of h) (lines_of hs)) ≤ recv_buf_size
    → HasNo 0 (joined (line_of h) (lines_of hs))
    → let head = joined (line_of h) (lines_of hs) in
      (http_read_request_head peek (wire (lines_of (h ∷ hs)) rest) ≡ got head rest)
      × (http_parse_request_head head headers ≡ (true, put_all (h ∷ hs) headers))
unfolding http_read_request_head http_parse_request_head lines_of
request_head_read peek h hs headers rest there (i, all) k z =
    let l = line_of-IsLine h i in
    let ls = lines_of-AllLines hs all in
    (
      read_head-wire peek (lines_of hs) [] (line_of h) rest there l ls (omega (arith, k)),
      ap (λ (c : Configs). (true, c))
          (ap (λ t. put_headers (strtok [] t) headers)
              (no_zero (joined (line_of h) (lines_of hs)) z)
            ∙ ap (λ t. put_headers t headers) (strtok-joined (lines_of hs) (line_of h) l ls)
            ∙ put_headers-lines_of (h ∷ hs) headers (i, all)),
    )
