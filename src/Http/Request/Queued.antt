-- ===== src/Http/Request/Queued.antt =====
-- What _read_request_handler of http/mgx_http_socket.cpp does with a request that is well written.
use my_gx.Base.{
  ℕ, zero, suc, ◌+◌, ◌-◌, ◌%◌, ◌^◌, ◌≤◌, ◌<◌, List, [], ◌∷◌, ◌++◌, append_assoc, append-nil, true,
  false, some, ltb, lt→ltb, ◌==◌, if◌then◌else◌, length, length-append, take, drop, ◌≡◌, refl, sym,
  subst, ap, ◌∙◌, take-append-drop, if_true, arith,
}
use my_gx.Conf.{Configs, get_string, stoi}
use my_gx.Conf.Lines.{HasNo}
use my_gx.Conf.Lookup.{stoi-number_digits}
use my_gx.Printf.{number_digits}
use my_gx.Http.{
  Peek, cr, lf, recv_buf_size, got, http_parse_request_line, RequestLine, http_read_request_head,
  http_parse_request_head,
}
use my_gx.Http.Line.{
  no_zero, Method, get, post, name, number, line_with, Avoids, http, request_line_read,
}
use my_gx.Http.Head.{AllThere, wire, joined}
use my_gx.Http.Headers.{Header, AllHeaders, line_of, lines_of, put_all, request_head_read}
use my_gx.Http.Request.{
  Caller, message, queued, queue_request, to_uint, body_got, content_length, count, read_body_from,
  http_read_request_body, with_length, with_number, after_body, after_head, after_line, with_line,
  http_request_handler,
}

-- The sizes of the calls, each of at least a byte, reach the length.
abbrev pub Enough : ℕ → List ℕ → Type 0
Enough n [] = n ≡ 0
Enough n (k ∷ calls) = (0 < k) × Enough (n - k) calls

take_once : (x y : List ℕ) (j : ℕ) → j ≤ length x → take j (x ++ y) ≡ take j x
take_once x y zero h = refl
take_once [] y (suc j) h = absurd (omega (arith, h))
take_once (b ∷ x) y (suc j) h = ap (λ l. b ∷ l) (take_once x y j (omega (arith, h)))

drop_once : (x y : List ℕ) (j : ℕ) → j ≤ length x → drop j (x ++ y) ≡ drop j x ++ y
drop_once x y zero h = refl
drop_once [] y (suc j) h = absurd (omega (arith, h))
drop_once (b ∷ x) y (suc j) h = drop_once x y j (omega (arith, h))

lengths :
    (x : List ℕ) (j : ℕ)
    → j ≤ length x
    → (length (take j x) ≡ j) × (length (drop j x) ≡ length x - j)
lengths x zero h = (refl, omega arith)
lengths [] (suc j) h = absurd (omega (arith, h))
lengths (b ∷ x) (suc j) h =
    let (t, d) = lengths x j (omega (arith, h)) in (omega (arith, t), omega (arith, d))

-- What a call for `left` bytes yields.
abbrev at_most : ℕ → ℕ → ℕ
at_most k left = if ltb k left then k else left

at_most_left :
    (k left : ℕ)
    → 0 < k
    → 0 < left
    → (at_most k left ≤ left) × (0 < at_most k left) × (left - at_most k left ≡ left - k)
at_most_left k left h l = (ground arith, ground arith, ground arith)

pub read_body_from-Enough :
    (calls held body rest : List ℕ) (n : ℕ)
    → n ≡ length held + length body
    → Enough (length body) calls
    → read_body_from calls n held (body ++ rest) ≡ got (held ++ body) rest
unfolding read_body_from
read_body_from-Enough [] held [] rest n e h =
    let over : ltb (length held) n ≡ false = ground (arith, e) in
    rw over (ap (λ l. got l rest) (sym (append-nil held)))
read_body_from-Enough [] held (b ∷ body) rest n e h = absurd (omega (arith, h))
read_body_from-Enough (k ∷ calls) held [] rest n e h =
    let over : ltb (length held) n ≡ false = ground (arith, e) in
    rw over (ap (λ l. got l rest) (sym (append-nil held)))
read_body_from-Enough (k ∷ calls) held (b ∷ body) rest n e (some_byte, enough) =
    let x = b ∷ body in
    let left : n - length held ≡ length x = omega (arith, e) in
    let more : ltb (length held) n ≡ true = lt→ltb _ _ (omega (arith, e)) in
    let j = at_most k (length x) in
    let (fits, moves, rests) = at_most_left k (length x) some_byte (omega arith) in
    let (t, d) = lengths x j fits in
    let full : (length (take j x) == 0) ≡ false = ground (arith, t, moves) in
    rw (more, left, take_once x rest j fits, full, drop_once x rest j fits)
      (read_body_from-Enough calls (held ++ take j x) (drop j x) rest n
          (omega (arith, e, length-append held (take j x), t, d, fits))
          (subst (λ m. Enough m calls) (sym (d ∙ rests)) enough)
        ∙ ap (λ l. got l rest)
            (append_assoc held (take j x) (drop j x) ∙ ap (λ l. held ++ l) (take-append-drop j x)))

-- A request with a line of a method, a uri and a version, in which "HTTP/" does not occur before the
-- version, and a head of at least one header, both without a 0 and of at most the size of recv_buf.
pub record IsRequest (method : Method) (uri version : List ℕ) (h : Header) (hs : List Header)
    : Type 0 where
  pub line_avoids : Avoids (name method ++ (b' ' ∷ (uri ++ (b' ' ∷ [])))) (http ++ version)
  pub line_no_cr : HasNo cr (line_with (name method) uri version)
  pub line_no_zero : HasNo 0 (line_with (name method) uri version)
  pub line_fits : length (line_with (name method) uri version) ≤ recv_buf_size
  pub headers : AllHeaders (h ∷ hs)
  pub head_fits : length (joined (line_of h) (lines_of hs)) ≤ recv_buf_size
  pub head_no_zero : HasNo 0 (joined (line_of h) (lines_of hs))

abbrev pub request : Method → List ℕ → List ℕ → Header → List Header → List ℕ → List ℕ
request method uri version h hs rest =
    line_with (name method) uri version ++ (cr ∷ lf ∷ wire (lines_of (h ∷ hs)) rest)

abbrev pub parsed : Method → List ℕ → List ℕ → RequestLine
parsed method uri version = record {
  method = number method;
  http_version = http ++ version;
  uri = uri;
}

with_line-some :
    (c : Caller) (peek : ℕ → Peek) (calls line s : List ℕ) (r : RequestLine)
    → 0 < length line
    → http_parse_request_line line ≡ some r
    → with_line c peek calls (got line s) ≡ after_head c calls r (http_read_request_head peek s)
unfolding with_line after_line
with_line-some c peek calls [] s r h e = absurd (omega (arith, h))
with_line-some c peek calls (b ∷ line) s r h e = rw e refl

after_head-parsed :
    (c : Caller) (calls head rest : List ℕ) (r : RequestLine) (headers : Configs)
    → 0 < length head
    → http_parse_request_head head [] ≡ (true, headers)
    → after_head c calls r (got head rest)
      ≡ after_body c r (http_read_request_body calls headers rest)
unfolding after_head
after_head-parsed c calls [] rest r headers h e = absurd (omega (arith, h))
after_head-parsed c calls (b ∷ head) rest r headers h e = rw e refl

line_with_some : (s uri version : List ℕ) → 0 < length (line_with s uri version)
line_with_some [] uri version = omega arith
line_with_some (b ∷ s) uri version = omega arith

joined_some : (l : List ℕ) (ls : List (List ℕ)) → 0 < length l → 0 < length (joined l ls)
unfolding joined
joined_some l [] h = h
joined_some l (m ∷ ls) h = omega (arith, h, length-append l (lf ∷ joined m ls))

line_of_some : (h : Header) → 0 < length (line_of h)
unfolding line_of
line_of_some h = omega (arith, length-append h.key (b':' ∷ b' ' ∷ h.val))

-- The line and the head of a request are read and parsed, and the body is left.
request_at_body :
    (c : Caller) (peek : ℕ → Peek) (calls : List ℕ) (method : Method) (uri version : List ℕ)
    (h : Header) (hs : List Header) (rest : List ℕ)
    → AllThere peek
    → IsRequest method uri version h hs
    → http_request_handler c peek calls (request method uri version h hs rest)
      ≡ after_body c
          (parsed method uri version)
          (http_read_request_body calls (put_all (h ∷ hs) []) rest)
unfolding http_request_handler
request_at_body c peek calls method uri version h hs rest there i =
    let s = wire (lines_of (h ∷ hs)) rest in
    let r = parsed method uri version in
    let (read, parse) =
      request_line_read method uri version s i.line_avoids i.line_no_cr i.line_no_zero
        i.line_fits in
    let (read_head, parse_head) =
      request_head_read peek h hs [] rest there i.headers i.head_fits i.head_no_zero in
    ap (with_line c peek calls) read
    ∙ with_line-some c peek calls (line_with (name method) uri version) s r
        (line_with_some (name method) uri version) parse
    ∙ ap (after_head c calls r) read_head
    ∙ after_head-parsed c calls (joined (line_of h) (lines_of hs)) rest r (put_all (h ∷ hs) [])
        (joined_some (line_of h) (lines_of hs) (line_of_some h)) parse_head

with_length-Enough :
    (calls body rest : List ℕ)
    → length body < 2 ^ 31
    → Enough (length body) calls
    → with_length calls (length body) (body ++ rest) ≡ body_got (length body) (some body) rest
unfolding with_length
with_length-Enough calls body rest h enough =
    let no_wrap : ((length body + 1) % 2 ^ 32 == 0) ≡ false = ground (arith, h) in
    rw (no_wrap, read_body_from-Enough calls [] body rest (length body) (omega arith) enough) refl

http_read_request_body-Enough :
    (calls : List ℕ) (headers : Configs) (body rest : List ℕ)
    → count content_length headers ≡ true
    → get_string content_length [] headers ≡ number_digits (length body) 0
    → length body < 2 ^ 31
    → Enough (length body) calls
    → http_read_request_body calls headers (body ++ rest) ≡ body_got (length body) (some body) rest
unfolding http_read_request_body with_number to_uint
http_read_request_body-Enough calls headers body rest counted value h enough =
    if_true (count content_length headers) _ _ counted
    ∙ ap (λ v. with_number calls v (body ++ rest))
        (ap stoi value ∙ stoi-number_digits (length body) h)
    ∙ with_length-Enough calls body rest h enough

-- What the message has of a body.
abbrev pub sent : Method → List ℕ → List ℕ
sent get body = []
sent post body = body

after_body-sent :
    (c : Caller) (method : Method) (uri version : List ℕ) (body rest : List ℕ)
    → 0 < length body
    → HasNo 0 body
    → after_body c (parsed method uri version) (body_got (length body) (some body) rest)
      ≡ queued (message c (parsed method uri version) (sent method body)) rest
unfolding after_body queue_request
after_body-sent c method uri version [] rest h z = absurd (omega (arith, h))
after_body-sent c get uri version (b ∷ body) rest h z = refl
after_body-sent c post uri version (b ∷ body) rest h z =
    ap (λ text. queued (message c (parsed post uri version) text) rest) (no_zero (b ∷ body) z)

-- A request of GET or POST that is written as it should be, fits into recv_buf, has no 0, and has a
-- body that is not empty, whose length of less than 2^31 is the value of Content-Length in decimal
-- digits, and which comes in pieces of at least a byte, is read while two bytes have come whenever the
-- end of the head is looked for, and the byte behind the two of buf is 0: the handler queues one
-- message, with the connection and its sequence number, the method, the uri, and for a POST the
-- body, and what follows the request is left on the stream.
pub request_queued :
    (c : Caller) (peek : ℕ → Peek) (calls : List ℕ) (method : Method) (uri version : List ℕ)
    (h : Header) (hs : List Header) (body rest : List ℕ)
    → AllThere peek
    → IsRequest method uri version h hs
    → count content_length (put_all (h ∷ hs) []) ≡ true
    → get_string content_length [] (put_all (h ∷ hs) []) ≡ number_digits (length body) 0
    → 0 < length body
    → length body < 2 ^ 31
    → HasNo 0 body
    → Enough (length body) calls
    → http_request_handler c peek calls (request method uri version h hs (body ++ rest))
      ≡ queued (message c (parsed method uri version) (sent method body)) rest
request_queued c peek calls method uri version h hs body rest there i counted value some_byte small
      z enough =
    request_at_body c peek calls method uri version h hs (body ++ rest) there i
    ∙ ap (after_body c (parsed method uri version)) (
        http_read_request_body-Enough calls (put_all (h ∷ hs) []) body rest counted value small
          enough)
    ∙ after_body-sent c method uri version body rest some_byte z
