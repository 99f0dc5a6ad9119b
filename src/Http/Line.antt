-- ===== src/Http/Line.antt =====
-- The request line, in http/mgx_http_socket.cpp.
use my_gx.Base.{
  ℕ, ◌+◌, ◌-◌, ◌≤◌, List, [], ◌∷◌, ◌++◌, append_assoc, append-nil, true, false, some, ltb, lt→ltb,
  codes, length, length-append, drop, ◌≡◌, refl, sym, ap, ◌∙◌, arith,
}
use my_gx.Conf.Lines.{HasNo, drop-length-cons, take-length-append}
use my_gx.Http.{
  cr, lf, recv_buf_size, got, read_line_from, http_read_request_line, starts_with, strstr, cut_uri,
  parse_with, parse_method, http_parse_request_line, c_string, method_get, method_post,
}

pub read_line_from-append :
    (held line rest : List ℕ)
    → HasNo cr line
    → length held + length line ≤ recv_buf_size
    → read_line_from false held (line ++ (cr ∷ lf ∷ rest)) ≡ got (held ++ line) rest
unfolding read_line_from
read_line_from-append held [] rest h k = ap (λ l. got l rest) (sym (append-nil held))
read_line_from-append held (b ∷ line) rest (h, hs) k =
    let room : ltb (length held) recv_buf_size ≡ true = lt→ltb _ _ (omega (arith, k)) in
    rw (h, room)
      (read_line_from-append (held ++ (b ∷ [])) line rest hs
          (omega (arith, k, length-append held (b ∷ [])))
        ∙ ap (λ l. got l rest) (append_assoc held (b ∷ []) line))

abbrev pub http : List ℕ
http = codes "HTTP/"

-- No occurrence of "HTTP/" begins in the text, when `t` follows it.
abbrev pub Avoids : List ℕ → List ℕ → Type 0
Avoids [] t = Unit {0}
Avoids (b ∷ x) t = (starts_with http (b ∷ (x ++ t)) ≡ false) × Avoids x t

strstr-Avoids :
    (i : ℕ) (x t : List ℕ)
    → Avoids x (http ++ t)
    → strstr http i (x ++ (http ++ t)) ≡ some (i + length x)
unfolding strstr
strstr-Avoids i [] t a = ap some (omega arith)
strstr-Avoids i (b ∷ x) t (a, all) = rw a (strstr-Avoids (i + 1) x t all ∙ ap some (omega arith))

drop-length-append : (x y : List ℕ) → drop (length x) (x ++ y) ≡ y
drop-length-append [] y = refl
drop-length-append (b ∷ x) y = drop-length-append x y

-- The request line with the method "GET" or "POST", a uri and a version.
abbrev pub line_with : List ℕ → List ℕ → List ℕ → List ℕ
line_with method_str uri version =
    (method_str ++ (b' ' ∷ (uri ++ (b' ' ∷ [])))) ++ (http ++ version)

cut_uri-line :
    (method : ℕ) (method_str uri version : List ℕ) (p : ℕ)
    → p ≡ length (method_str ++ (b' ' ∷ (uri ++ (b' ' ∷ []))))
    → cut_uri method method_str (line_with method_str uri version) p
      ≡ some (record { method = method; http_version = http ++ version; uri = uri })
unfolding cut_uri
cut_uri-line method method_str uri version p e =
    let front = method_str ++ (b' ' ∷ (uri ++ (b' ' ∷ []))) in
    let tail = http ++ version in
    let long : length front ≡ length method_str + length uri + 2 = omega (
      arith,
      length-append method_str (b' ' ∷ (uri ++ (b' ' ∷ []))),
      length-append uri (b' ' ∷ []),
    ) in
    let late : ltb p (length method_str + 2) ≡ false = ground (arith, e, long) in
    let behind : drop p (front ++ tail) ≡ tail =
      ap (λ k. drop k (front ++ tail)) e ∙ drop-length-append front tail in
    let from_uri : drop (length method_str + 1) (front ++ tail) ≡ uri ++ (b' ' ∷ tail) =
      ap (drop (length method_str + 1)) (append_assoc method_str (b' ' ∷ (uri ++ (b' ' ∷ []))) tail)
      ∙ drop-length-cons b' ' method_str ((uri ++ (b' ' ∷ [])) ++ tail)
      ∙ append_assoc uri (b' ' ∷ []) tail in
    let its_length : p - length method_str - 2 ≡ length uri = omega (arith, e, long) in
    rw (late, behind, from_uri, its_length)
      (ap (λ u. some (record { method = method; http_version = tail; uri = u }))
        (take-length-append uri (b' ' ∷ tail)))

parse_with-line :
    (method : ℕ) (method_str uri version : List ℕ)
    → Avoids (method_str ++ (b' ' ∷ (uri ++ (b' ' ∷ [])))) (http ++ version)
    → parse_with method method_str (line_with method_str uri version)
      ≡ some (record { method = method; http_version = http ++ version; uri = uri })
unfolding parse_with
parse_with-line method method_str uri version a =
    let front = method_str ++ (b' ' ∷ (uri ++ (b' ' ∷ []))) in
    rw (strstr-Avoids 0 front version a)
      (cut_uri-line method method_str uri version (0 + length front) (omega arith))

-- The methods that the server knows, with their names.
pub data Method : Type 0 where
  get post : Method

abbrev pub name : Method → List ℕ
name get = codes "GET"
name post = codes "POST"

abbrev pub number : Method → ℕ
number get = method_get
number post = method_post

parse_method-line :
    (method : Method) (uri version : List ℕ)
    → Avoids (name method ++ (b' ' ∷ (uri ++ (b' ' ∷ [])))) (http ++ version)
    → parse_method (line_with (name method) uri version)
      ≡ some (record { method = number method; http_version = http ++ version; uri = uri })
unfolding parse_method starts_with
parse_method-line get uri version a = parse_with-line method_get (codes "GET") uri version a
parse_method-line post uri version a = parse_with-line method_post (codes "POST") uri version a

pub no_zero : (s : List ℕ) → HasNo 0 s → c_string s ≡ s
unfolding c_string
no_zero [] h = refl
no_zero (b ∷ s) (h, hs) = rw h (ap (λ l. b ∷ l) (no_zero s hs))

-- A request line with GET or POST, a uri and a version, in which "HTTP/" does not occur before the
-- version, with no CR and no 0 in it and of at most the size of recv_buf: the server reads it from the stream
-- up to the CR and LF behind it, and takes method, uri and version out of it.
pub request_line_read :
    (method : Method) (uri version rest : List ℕ)
    → Avoids (name method ++ (b' ' ∷ (uri ++ (b' ' ∷ [])))) (http ++ version)
    → HasNo cr (line_with (name method) uri version)
    → HasNo 0 (line_with (name method) uri version)
    → length (line_with (name method) uri version) ≤ recv_buf_size
    → let line = line_with (name method) uri version in
      (http_read_request_line (line ++ (cr ∷ lf ∷ rest)) ≡ got line rest)
      × (http_parse_request_line line
          ≡ some (record { method = number method; http_version = http ++ version; uri = uri }))
unfolding http_read_request_line http_parse_request_line
request_line_read method uri version rest a h z k = (
  read_line_from-append [] (line_with (name method) uri version) rest h (omega (arith, k)),
  ap parse_method (no_zero (line_with (name method) uri version) z)
      ∙ parse_method-line method uri version a,
)
