-- ===== src/Http.antt =====
-- Reading a request: the functions of http/mgx_http_socket.cpp from the bytes of a connection to the
-- request line and the headers. A stream is what the calls of recv_process for one byte each will
-- yield; where it ends, recv_process returns 0 or less.
pub mod Line
pub mod Head
pub mod Headers
pub mod Response
pub mod Request
pub mod Answer
pub mod Sized
mod Examples
use my_gx.Base.{
  ℕ, zero, suc, ◌+◌, ◌-◌, List, [], ◌∷◌, ◌++◌, Bool, true, false, not, ◌||◌, ◌&&◌, Option, none,
  some, ltb, ◌==◌, if◌then◌else◌, ◌>>=◌, codes, length, take, drop,
}
use my_gx.Conf.{Configs, find_from, key_of, val_of, strim}

abbrev pub cr : ℕ
cr = 13

abbrev pub lf : ℕ
lf = 10

-- The size of recv_buf, and METHOD_GET and METHOD_POST.
abbrev pub recv_buf_size : ℕ
recv_buf_size = 8192

abbrev pub method_get : ℕ
method_get = 1

abbrev pub method_post : ℕ
method_post = 3

-- What a reading function comes to: the stream ends, a write behind recv_buf, or the text and the
-- rest of the stream.
pub data Read : Type 0 where
  ended : Read
  overflow : Read
  got : List ℕ → List ℕ → Read

-- http_read_request_line: `recv_buf` is what was stored, and `after_cr` says that the byte before was
-- a CR that was looked at.
unfoldable pub read_line_from : Bool → List ℕ → List ℕ → Read
read_line_from after_cr recv_buf [] = ended
read_line_from false recv_buf (ch ∷ s) =
    let stored = read_line_from false (recv_buf ++ (ch ∷ [])) s in
    let later = read_line_from true recv_buf s in
    if ch == cr then later else if ltb (length recv_buf) recv_buf_size then stored else overflow
read_line_from true recv_buf (ch ∷ s) =
    let stored = read_line_from false (recv_buf ++ (cr ∷ ch ∷ [])) s in
    if ch == lf
    then got recv_buf s
    else if ltb (length recv_buf + 1) recv_buf_size
    then stored
    else overflow

unfoldable pub http_read_request_line : List ℕ → Read
unfolding read_line_from
http_read_request_line s = read_line_from false [] s

-- strncmp(text, word, strlen(word)) == 0
unfoldable pub starts_with : List ℕ → List ℕ → Bool
starts_with [] text = true
starts_with (w ∷ word) [] = false
starts_with (w ∷ word) (b ∷ text) = w == b && starts_with word text

-- strstr: the index of the first occurrence.
unfoldable pub strstr : List ℕ → ℕ → List ℕ → Option ℕ
unfolding starts_with
strstr word i [] = none
strstr word i (b ∷ text) =
    let later = strstr word (i + 1) text in if starts_with word (b ∷ text) then some i else later

pub record RequestLine : Type 0 where
  pub method : ℕ
  pub http_version : List ℕ
  pub uri : List ℕ

-- The length of the uri is p - request_line - strlen(method_str) - 2, which must not be negative.
unfoldable pub cut_uri : ℕ → List ℕ → List ℕ → ℕ → Option RequestLine
cut_uri method method_str request_line p =
    if ltb p (length method_str + 2)
    then none
    else some (record {
      method = method;
      http_version = drop p request_line;
      uri = take (p - length method_str - 2) (drop (length method_str + 1) request_line);
    })

unfoldable pub parse_with : ℕ → List ℕ → List ℕ → Option RequestLine
unfolding strstr cut_uri
parse_with method method_str request_line =
    strstr (codes "HTTP/") 0 request_line >>= cut_uri method method_str request_line

-- A C string: up to the first 0.
unfoldable pub c_string : List ℕ → List ℕ
c_string [] = []
c_string (b ∷ s) = let rest = c_string s in if b == 0 then [] else b ∷ rest

unfoldable pub parse_method : List ℕ → Option RequestLine
unfolding parse_with starts_with
parse_method request_line =
    if starts_with (codes "GET") request_line
    then parse_with method_get (codes "GET") request_line
    else if starts_with (codes "POST") request_line
    then parse_with method_post (codes "POST") request_line
    else none

-- http_parse_request_line: `none` where it returns false, and where "HTTP/" is not found or stands too
-- early, so that pointers are subtracted that should not be.
unfoldable pub http_parse_request_line : List ℕ → Option RequestLine
unfolding parse_method c_string
http_parse_request_line request_line = parse_method (c_string request_line)

-- What a recv with MSG_PEEK meets: how many bytes have come by then, and whether the byte behind `buf`,
-- which strcmp reads too, is 0.
pub record Peek : Type 0 where
  pub there : ℕ
  pub nul_behind : Bool

-- The test of the bytes that MSG_PEEK finds. Where fewer than two have come, `buf` ends with a 0.
unfoldable pub is_crlf : Peek → List ℕ → Bool
is_crlf p [] = false
is_crlf p (a ∷ []) = false
is_crlf p (a ∷ b ∷ s) = ltb 1 p.there && (a == cr && b == lf && p.nul_behind)

-- http_read_request_head. `peek` has what each recv with MSG_PEEK meets, by the number of bytes that are
-- still to be read.
unfoldable pub read_head_from : (ℕ → Peek) → Bool → List ℕ → List ℕ → Read
unfolding is_crlf
read_head_from peek after_cr recv_buf [] = ended
read_head_from peek false recv_buf (ch ∷ s) =
    let stored = read_head_from peek false (recv_buf ++ (ch ∷ [])) s in
    let later = read_head_from peek true recv_buf s in
    if ch == cr then later else if ltb (length recv_buf) recv_buf_size then stored else overflow
read_head_from peek true recv_buf (ch ∷ s) =
    let line_end = read_head_from peek false (recv_buf ++ (lf ∷ [])) s in
    let stored = read_head_from peek false (recv_buf ++ (cr ∷ ch ∷ [])) s in
    if ch == lf
    then (if is_crlf (peek (length s)) s
        then got recv_buf (drop 2 s)
        else if ltb (length recv_buf) recv_buf_size
        then line_end
        else overflow)
    else if ltb (length recv_buf + 1) recv_buf_size
    then stored
    else overflow

unfoldable pub http_read_request_head : (ℕ → Peek) → List ℕ → Read
unfolding read_head_from
http_read_request_head peek s = read_head_from peek false [] s

-- strtok with the delimiters CR and LF: `held` is the token at hand, and there are no empty ones.
unfoldable pub token : List ℕ → List (List ℕ) → List (List ℕ)
token [] rest = rest
token (b ∷ held) rest = (b ∷ held) ∷ rest

unfoldable pub strtok : List ℕ → List ℕ → List (List ℕ)
unfolding token
strtok held [] = token held []
strtok held (b ∷ s) =
    if b == cr || b == lf then token held (strtok [] s) else strtok (held ++ (b ∷ [])) s

-- One round of http_parse_request_head.
unfoldable pub put_header : List ℕ → Configs → Configs
put_header line headers =
    let index = find_from (λ b. b == b':') 0 line in
    (strim (key_of index line), strim (val_of index line)) ∷ headers

unfoldable pub put_headers : List (List ℕ) → Configs → Configs
unfolding put_header
put_headers [] headers = headers
put_headers (line ∷ lines) headers = put_headers lines (put_header line headers)

unfoldable pub http_parse_request_head : List ℕ → Configs → Bool × Configs
unfolding put_headers strtok c_string
http_parse_request_head request_head headers =
    (true, put_headers (strtok [] (c_string request_head)) headers)
