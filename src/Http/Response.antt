-- ===== src/Http/Response.antt =====
-- A response: http_write_response of http/mgx_http_socket.cpp.
use my_gx.Base.{ℕ, ◌-◌, List, [], ◌∷◌, ◌++◌, if◌then◌else◌, length}
use my_gx.Conn.{MsgBuf}
use my_gx.Conf.{same_text, substr}
use my_gx.Http.{cr, lf, c_string}
use my_gx.Http.Headers.{Header, line_of}

abbrev pub crlf : List ℕ
crlf = cr ∷ lf ∷ []

-- The test of the end of the status line, with a size of at least three.
unfoldable pub with_crlf : List ℕ → List ℕ
with_crlf status_line =
    if same_text (substr status_line (length status_line - 2 - 1) 2) crlf
    then status_line
    else status_line ++ crlf

-- The loop over the headers, in the order of the map.
unfoldable pub add_headers : List Header → List ℕ → List ℕ
unfolding line_of
add_headers [] response = response
add_headers (h ∷ hs) response = add_headers hs (response ++ (line_of h ++ crlf))

unfoldable pub response_text : List ℕ → List Header → List ℕ → List ℕ
unfolding with_crlf add_headers c_string
response_text status_line headers response_body =
    (add_headers headers (with_crlf status_line) ++ crlf) ++ c_string response_body

-- http_write_response: what is given to send_msg.
unfoldable pub http_write_response : List ℕ → List Header → List ℕ → MsgBuf → MsgBuf
unfolding response_text
http_write_response status_line headers response_body m = record {
  pconn = m.pconn;
  cur_seq = m.cur_seq;
  bytes = response_text status_line headers response_body;
}
