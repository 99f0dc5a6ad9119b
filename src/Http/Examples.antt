-- ===== src/Http/Examples.antt =====
-- Tests and instances for the requests of http/mgx_http_socket.cpp.
use my_gx.Base.{
  some, ◌++◌, ℕ, List, [], ◌∷◌, true, none, codes, if◌then◌else◌, length, ◌≤◌, ◌≡◌, refl, arith,
}
use my_gx.Conf.{substr, first_char, get_string, stoi, same_text}
use my_gx.Conf.Lines.{HasNo}
use my_gx.Conn.{MsgBuf}
use my_gx.Conf.Trim.{unskip}
use my_gx.Http.{Peek, ended, http_read_request_line, http_parse_request_line, starts_with}
use my_gx.Http.Line.{get, post}
use my_gx.Http.Head.{AllThere, joined}
use my_gx.Http.Headers.{Header, IsHeader, line_of, lines_of, put_all}
use my_gx.Printf.{number_digits, digits_loop}
use my_gx.Http.Request.{
  Caller, HttpMessage, message, queued, returned, body_overflow, content_length, count, with_length,
  with_number, after_body, http_request_handler,
}
use my_gx.Http.Request.Queued.{IsRequest, request, parsed, request_queued}
use my_gx.Http.Answer.{
  get_file, get_mime_type, get_extension, File, content, not_opened, static_file_path, answer_to,
  ok_with,
}
use my_gx.Http.Sized.{Sized}
use my_gx.Http.Response.{response_text}

abbrev line : List ℕ
line = codes "GET /a HTTP/1.1"

-- Without a version strstr returns a null pointer, from which the code computes a length.
no_version : http_parse_request_line (codes "GET /a") ≡ none
unfolding http_parse_request_line
no_version = refl

cut_stream : http_read_request_line (codes "GET /a") ≡ ended
unfolding http_read_request_line
cut_stream = refl

abbrev peek : ℕ → Peek
peek n = record { there = 2; nul_behind = true }

peek_there : AllThere peek
peek_there n = (omega arith, refl)

abbrev host : Header
host = record { key = codes "Host"; val = codes "mgx" }

abbrev agent : Header
agent = record { key = codes "UA"; val = codes "c" }

abbrev msg_buf : MsgBuf
msg_buf = record { pconn = 0; cur_seq = 0; bytes = [] }

abbrev ok : List ℕ
ok = codes "HTTP/1.1 200 OK"

abbrev caller : Caller
caller = record { pconn = 5; cur_seq = 2 }

abbrev len_one : Header
len_one = record { key = content_length; val = codes "1" }

len_one-IsHeader : IsHeader len_one
unfolding unskip first_char
len_one-IsHeader = record {
  key = record { front = refl; back = refl };
  val = record { front = refl; back = refl };
  no_colon = (
    refl,
    (
      refl,
      (
        refl,
        (refl, (refl, (refl, (refl, (refl, (refl, (refl, (refl, (refl, (refl, (refl, tt))))))))))),
      ),
    ),
  );
  key_no_cr = (
    refl,
    (
      refl,
      (
        refl,
        (refl, (refl, (refl, (refl, (refl, (refl, (refl, (refl, (refl, (refl, (refl, tt))))))))))),
      ),
    ),
  );
  key_no_lf = (
    refl,
    (
      refl,
      (
        refl,
        (refl, (refl, (refl, (refl, (refl, (refl, (refl, (refl, (refl, (refl, (refl, tt))))))))))),
      ),
    ),
  );
  val_no_cr = (refl, tt);
  val_no_lf = (refl, tt);
}

post_with :
    (h : Header)
    → IsHeader h
    → length (line_of h) ≤ 8192
    → HasNo 0 (line_of h)
    → IsRequest post (codes "/a") (codes "1.1") h []
unfolding starts_with joined lines_of
post_with h i fits no_nul = record {
  line_avoids = (refl, (refl, (refl, (refl, (refl, (refl, (refl, (refl, tt))))))));
  line_no_cr = (
    refl,
    (
      refl,
      (
        refl,
        (
          refl,
          (
            refl,
            (
              refl,
              (refl, (refl, (refl, (refl, (refl, (refl, (refl, (refl, (refl, (refl, tt)))))))))),
            ),
          ),
        ),
      ),
    ),
  );
  line_no_zero = (
    refl,
    (
      refl,
      (
        refl,
        (
          refl,
          (
            refl,
            (
              refl,
              (refl, (refl, (refl, (refl, (refl, (refl, (refl, (refl, (refl, (refl, tt)))))))))),
            ),
          ),
        ),
      ),
    ),
  );
  line_fits = omega arith;
  headers = (i, tt);
  head_fits = fits;
  head_no_zero = no_nul;
}

post_len_one : IsRequest post (codes "/a") (codes "1.1") len_one []
unfolding line_of
post_len_one = post_with len_one len_one-IsHeader (omega arith) (
  refl,
  (
    refl,
    (
      refl,
      (
        refl,
        (
          refl,
          (
            refl,
            (
              refl,
              (refl, (refl, (refl, (refl, (refl, (refl, (refl, (refl, (refl, (refl, tt)))))))))),
            ),
          ),
        ),
      ),
    ),
  ),
)

request_queued_example :
    http_request_handler caller peek
      (4 ∷ [])
      (request post (codes "/a") (codes "1.1") len_one [] (65 ∷ 71 ∷ []))
    ≡ queued (message caller (parsed post (codes "/a") (codes "1.1")) (65 ∷ [])) (71 ∷ [])
unfolding count get_string number_digits digits_loop put_all
request_queued_example =
    request_queued caller peek (4 ∷ []) post (codes "/a") (codes "1.1") len_one [] (65 ∷ [])
      (71 ∷ []) peek_there post_len_one refl refl (omega arith) (omega arith) (refl, tt)
      (omega arith, refl)

-- A body of the length 0 is read, but its length is taken for an error.
zero_length : after_body caller (parsed get [] []) (with_length [] 0 []) ≡ returned
unfolding after_body with_length
zero_length = refl

-- The length -1 makes a body of no bytes.
minus_one : with_number (1 ∷ []) (stoi (codes "-1")) (65 ∷ []) ≡ body_overflow
unfolding with_number stoi
minus_one = refl

abbrev page_request : HttpMessage
page_request = record {
  pconn = 5;
  cur_seq = 2;
  http_method = 1;
  uri = codes "/";
  request_body = [];
}

-- One file, of four bytes by its size, of which two are read; and a page of one byte for the others.
abbrev files : List ℕ → File
files path =
    if same_text path (codes "./html//index.html") then content 4 (60 ∷ 62 ∷ []) else not_opened

-- Content-Length is 4, and two bytes are sent.
served :
    answer_to files (65 ∷ []) (codes "./html/") page_request
    ≡ ok_with (some (codes "text/html")) 4 (60 ∷ 62 ∷ [])
unfolding answer_to ok_with get_file same_text static_file_path get_mime_type get_extension
served = refl

-- A body is cut at its first 0, while Content-Length counts all of it.
with_zero : (response_text ok [] (60 ∷ 0 ∷ 62 ∷ [])) ≡ ok ++ 13 ∷ 10 ∷ 13 ∷ 10 ∷ 60 ∷ []
unfolding response_text same_text substr
with_zero = refl
