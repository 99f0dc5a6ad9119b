-- ===== src/Http/Answer.antt =====
-- The answers of the server: th_msg_process_func, get_extension and the types of files of
-- http/mgx_http_socket.cpp. The query of the database, whose result is not used, is left out.
use my_gx.Base.{
  ℕ, zero, suc, List, [], ◌∷◌, ◌++◌, Option, none, some, ◌==◌, if◌then◌else◌, codes, length, drop,
}
use my_gx.Conn.{MsgBuf}
use my_gx.Conf.{Configs, same_text, first_char}
use my_gx.Printf.{number_digits}
use my_gx.Http.{c_string, method_get, method_post}
use my_gx.Http.Headers.{Header}
use my_gx.Http.Request.{HttpMessage, content_length}
use my_gx.Http.Response.{http_write_response}

-- The loop of get_extension, with `p` as an index; the byte behind the path is 0.
unfoldable pub extension_from : ℕ → List ℕ → List ℕ
unfolding first_char
extension_from zero path = codes ".html"
extension_from (suc p) path =
    let before = extension_from p path in
    if first_char (drop (suc p) path) == b'.' then drop (suc p) path else before

unfoldable pub get_extension : List ℕ → List ℕ
unfolding extension_from
get_extension path = extension_from (length path) path

unfoldable pub mime_types : Configs
mime_types =
    (codes ".html", codes "text/html")
    ∷ (codes ".htm", codes "text/html")
    ∷ (codes ".xml", codes "text/xml")
    ∷ (codes ".txt", codes "text/plain")
    ∷ (codes ".css", codes "text/css")
    ∷ (codes ".js", codes "application/javascript")
    ∷ (codes ".json", codes "application/json")
    ∷ (codes ".zip", codes "application/zip")
    ∷ (codes ".jpeg", codes "image/jpeg")
    ∷ (codes ".jpg", codes "image/jpeg")
    ∷ (codes ".png", codes "image/png")
    ∷ (codes ".gif", codes "image/gif")
    ∷ (codes ".ico", codes "image/x-icon")
    ∷ (codes ".bmp", codes "image/x-ms-bmp")
    ∷ []

-- `none` is the null pointer that operator[] makes for a key that is not in the map.
unfoldable pub value_of : List ℕ → Configs → Option (List ℕ)
unfolding same_text
value_of key [] = none
value_of key ((k, v) ∷ types) =
    let later = value_of key types in if same_text key k then some v else later

unfoldable pub get_mime_type : List ℕ → Option (List ℕ)
unfolding value_of mime_types
get_mime_type extension = value_of extension mime_types

-- What open, get_file_size and must_read come to for a path: the file is not opened; its size cannot be
-- found; its bytes cannot be read; or the size, and the bytes that are read up to it, which are fewer
-- if the file ends before.
pub data File : Type 0 where
  not_opened : File
  no_size : File
  not_read : File
  content : ℕ → List ℕ → File

pub record HttpResponse : Type 0 where
  pub status_line : List ℕ
  pub headers : Configs
  pub response_body : List ℕ

-- What is to be sent: nothing, something undefined (a null pointer that is used), or a response.
pub data Answer : Type 0 where
  nothing : Answer
  undefined_answer : Answer
  answer : HttpResponse → Answer

abbrev pub to_string : ℕ → List ℕ
to_string n = number_digits n 0

-- The headers that every response has, those assigned later first.
unfoldable pub headers_with : List ℕ → ℕ → Configs
headers_with content_type size =
    (content_length, to_string size)
    ∷ (codes "Content-Type", content_type)
    ∷ (codes "Connection", codes "keep-alive")
    ∷ (codes "Server", codes "Mgx http server")
    ∷ []

-- The body has `size` bytes and a 0 behind them; after those of `body` they are 0 as well.
unfoldable pub ok_with : Option (List ℕ) → ℕ → List ℕ → Answer
unfolding headers_with
ok_with none size body = undefined_answer
ok_with (some content_type) size body = answer (record {
  status_line = codes "HTTP/1.1 200 OK";
  headers = headers_with content_type size;
  response_body = body;
})

-- read_file_all yields nothing if the page cannot be read.
unfoldable pub not_found : List ℕ → List ℕ → Answer
unfolding headers_with same_text
not_found page uri =
    let res_body = if same_text uri (codes "/favicon.ico") then [] else page in
    answer (record {
      status_line = codes "HTTP/1.1 404 Not Found";
      headers = headers_with (codes "text/html; charset=UTF-8") (length res_body);
      response_body = res_body;
    })

-- The type is looked up before the file is read.
unfoldable pub unread_with : Option (List ℕ) → Answer
unread_with none = undefined_answer
unread_with (some content_type) = nothing

unfoldable pub static_file_path : List ℕ → List ℕ → List ℕ
unfolding same_text
static_file_path index_path uri =
    if same_text uri (codes "/")
    then (index_path ++ uri) ++ codes "index.html"
    else index_path ++ uri

unfoldable pub get_file : List ℕ → List ℕ → File → Answer
get_file page uri not_opened = not_found page uri
get_file page uri no_size = nothing
get_file page uri not_read = unread_with (get_mime_type (get_extension uri))
get_file page uri (content size body) = ok_with (get_mime_type (get_extension uri)) size body

-- The branches on the method; another one leaves the status line without a value.
unfoldable pub answer_to : (List ℕ → File) → List ℕ → List ℕ → HttpMessage → Answer
answer_to files page index_path m =
    if m.http_method == method_get
    then get_file page m.uri (files (static_file_path index_path m.uri))
    else if m.http_method == method_post
    then ok_with (get_mime_type (codes ".json")) (length (c_string m.request_body))
        (c_string m.request_body)
    else undefined_answer

pub data Outcome : Type 0 where
  not_sent : Outcome
  undefined_send : Outcome
  sent : MsgBuf → Outcome

-- `order` puts the headers of the map into the order in which its iterator goes through them.
unfoldable pub write_answer : (Configs → List Header) → HttpMessage → Answer → Outcome
write_answer order m nothing = not_sent
write_answer order m undefined_answer = undefined_send
write_answer order m (answer r) = sent (
    http_write_response r.status_line (order r.headers) r.response_body
      (record { pconn = m.pconn; cur_seq = m.cur_seq; bytes = [] }))

unfoldable pub th_http_process_func :
    (Configs → List Header) → (List ℕ → File) → List ℕ → List ℕ → HttpMessage → Outcome
unfolding write_answer answer_to
th_http_process_func order files page index_path m =
    write_answer order m (answer_to files page index_path m)
