-- ===== src/Http/Request.antt =====
-- A request as a whole: http_read_request_body and _read_request_handler of http/mgx_http_socket.cpp.
pub mod Queued
use my_gx.Base.{
  ℕ, zero, suc, ◌+◌, ◌-◌, ◌%◌, ◌^◌, ◌≤◌, ◌<◌, List, [], ◌∷◌, ◌++◌, append_assoc, Bool, true, false,
  Option, none, some, ltb, ◌==◌, ◌||◌, if◌then◌else◌, codes, length, take, drop,
}
use my_gx.Conf.{Configs, ℤ, pos, negsuc, same_text, get_string, stoi, is_empty}
use my_gx.Pool.{Pool}
use my_gx.Handler.{Recv, recv_process}
use my_gx.Http.{
  Peek, Read, ended, overflow, got, c_string, RequestLine, http_read_request_line,
  http_parse_request_line, http_read_request_head, http_parse_request_head, starts_with,
  method_post,
}

abbrev pub content_length : List ℕ
content_length = codes "Content-Length"

unfoldable pub count : List ℕ → Configs → Bool
unfolding same_text
count key [] = false
count key ((k, v) ∷ headers) =
    let later = count key headers in if same_text key k then true else later

-- uint content_len = stoi(...)
unfoldable pub to_uint : ℤ → ℕ
to_uint (pos n) = n
to_uint (negsuc n) = 2 ^ 32 - 1 - n

-- The loop: `calls` are the sizes up to which the calls of recv_process give bytes, none of which is
-- more than is asked for; after them, and where the stream is empty, they give 0 or less.
unfoldable pub read_body_from : List ℕ → ℕ → List ℕ → List ℕ → Read
read_body_from [] content_len body s = if ltb (length body) content_len then ended else got body s
read_body_from (k ∷ calls) content_len body s =
    let size = if ltb k (content_len - length body) then k else content_len - length body in
    let more = read_body_from calls content_len (body ++ take size s) (drop size s) in
    let next = if length (take size s) == 0 then ended else more in
    if ltb (length body) content_len then next else got body s

-- What http_read_request_body comes to: 0 or less, an exception of stoi, a write behind the body, or
-- the number that it returns, the body, if there is one, and the rest of the stream.
pub data BodyRead : Type 0 where
  body_ended : BodyRead
  body_throws : BodyRead
  body_overflow : BodyRead
  body_got : ℕ → Option (List ℕ) → List ℕ → BodyRead

unfoldable pub first_bytes : List ℕ → List ℕ → List ℕ
first_bytes [] s = []
first_bytes (k ∷ calls) s = take k s

-- The body has content_len + 1 bytes, as a uint: none for the largest length, so that the first bytes
-- are written behind it.
unfoldable pub with_length : List ℕ → ℕ → List ℕ → BodyRead
unfolding read_body_from first_bytes
with_length calls content_len s =
    if (content_len + 1) % 2 ^ 32 == 0
    then (if length (first_bytes calls s) == 0 then body_ended else body_overflow)
    else elim (read_body_from calls content_len [] s) [
      | got body rest ↦ body_got content_len (some body) rest
      | _ ↦ body_ended
    ]

unfoldable pub with_number : List ℕ → Option ℤ → List ℕ → BodyRead
unfolding with_length to_uint
with_number calls none s = body_throws
with_number calls (some n) s = with_length calls (to_uint n) s

unfoldable pub http_read_request_body : List ℕ → Configs → List ℕ → BodyRead
unfolding count with_number get_string stoi
http_read_request_body calls headers s =
    if count content_length headers
    then with_number calls (stoi (get_string content_length [] headers)) s
    else body_got 1 none s

-- The message that is given to the thread pool, with the C string behind its header.
pub record HttpMessage : Type 0 where
  pub pconn : ℕ
  pub cur_seq : ℕ
  pub http_method : ℕ
  pub uri : List ℕ
  pub request_body : List ℕ

-- What the handler comes to: recv_process gives 0 or less, so that it returns; it returns otherwise; it
-- does something undefined; it throws; or it queues a message.
pub data Handled : Type 0 where
  not_received : Handled
  returned : Handled
  undefined : Handled
  throws : Handled
  queued : HttpMessage → List ℕ → Handled

pub record Caller : Type 0 where
  pub pconn : ℕ
  pub cur_seq : ℕ

abbrev pub message : Caller → RequestLine → List ℕ → HttpMessage
message c r text = record {
  pconn = c.pconn;
  cur_seq = c.cur_seq;
  http_method = r.method;
  uri = r.uri;
  request_body = text;
}

-- The body is copied for a POST only, and then without a test for a null pointer.
unfoldable pub queue_request : Caller → RequestLine → Option (List ℕ) → List ℕ → Handled
unfolding c_string
queue_request c r none rest =
    if r.method == method_post then undefined else queued (message c r []) rest
queue_request c r (some body) rest =
    queued (message c r (if r.method == method_post then c_string body else [])) rest

unfoldable pub after_body : Caller → RequestLine → BodyRead → Handled
unfolding queue_request
after_body c r body_ended = not_received
after_body c r body_throws = throws
after_body c r body_overflow = undefined
after_body c r (body_got zero body rest) = returned
after_body c r (body_got (suc n) body rest) = queue_request c r body rest

unfoldable pub after_head : Caller → List ℕ → RequestLine → Read → Handled
after_head c calls r ended = not_received
after_head c calls r overflow = undefined
after_head c calls r (got [] rest) = returned
after_head c calls r (got (b ∷ head) rest) =
    let (parsed, headers) = http_parse_request_head (b ∷ head) [] in
    if parsed then after_body c r (http_read_request_body calls headers rest) else returned

unfoldable pub after_line :
    Caller → (ℕ → Peek) → List ℕ → List ℕ → Option RequestLine → List ℕ → Handled
unfolding after_head http_read_request_head starts_with
after_line c peek calls line none s =
    if starts_with (codes "GET") line || starts_with (codes "POST") line
    then undefined
    else returned
after_line c peek calls line (some r) s = after_head c calls r (http_read_request_head peek s)

unfoldable pub with_line : Caller → (ℕ → Peek) → List ℕ → Read → Handled
unfolding after_line
with_line c peek calls ended = not_received
with_line c peek calls overflow = undefined
with_line c peek calls (got [] s) = returned
with_line c peek calls (got (b ∷ line) s) =
    after_line c peek calls (b ∷ line) (http_parse_request_line (b ∷ line)) s

-- _read_request_handler. A line with GET or POST that cannot be parsed makes pointers or sizes that
-- are undefined.
unfoldable pub http_request_handler : Caller → (ℕ → Peek) → List ℕ → List ℕ → Handled
unfolding with_line http_read_request_line
http_request_handler c peek calls s = with_line c peek calls (http_read_request_line s)

-- What the handler does to the pool, if the last call of recv_process met `last`: it changes it only
-- by that call, which closes the connection or gives it to delayed recovery.
unfoldable pub handled_pool : ℕ → ℕ → Recv → Handled → Pool → Pool
handled_pool now c last not_received p = (recv_process now c last p).1
handled_pool now c last _ p = p
