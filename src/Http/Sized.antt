-- ===== src/Http/Sized.antt =====
-- What th_msg_process_func of http/mgx_http_socket.cpp answers, on every branch.
use my_gx.Base.{◌≤◌, ℕ, List, [], none, codes, length, ◌≡◌, ◌⊎◌}
use my_gx.Conf.{get_string}
use my_gx.Conf.Lines.{HasNo}
use my_gx.Http.{c_string}
use my_gx.Http.Request.{content_length}
use my_gx.Http.Answer.{
  Answer, nothing, undefined_answer, answer, File, not_opened, no_size, not_read, content,
  to_string, get_mime_type, get_extension,
}

abbrev pub ok : List ℕ
ok = codes "HTTP/1.1 200 OK"

abbrev pub missing : List ℕ
missing = codes "HTTP/1.1 404 Not Found"

-- must_read gives no more bytes than it is asked for.
abbrev pub FileFits : File → Type 0
FileFits (content size body) = length body ≤ size
FileFits _ = Unit {0}

-- An answer for a uri whose file is `f`: nothing for a file that cannot be read, a null pointer for an
-- extension without a type, and otherwise a response with a Content-Length that is at least the number
-- of bytes of the body that are sent, up to its first 0, with the status 404 only for a file that
-- cannot be opened.
abbrev pub Sized : File → List ℕ → Answer → Type 0
Sized f uri nothing = (f ≡ no_size) ⊎ (f ≡ not_read)
Sized f uri undefined_answer = get_mime_type (get_extension uri) ≡ none
Sized f uri (answer r) =
    (n : ℕ) × (get_string content_length [] r.headers ≡ to_string n)
    × (length (c_string r.response_body) ≤ n)
    × (HasNo 0 r.response_body → length r.response_body ≡ n → length (c_string r.response_body) ≡ n)
    × ((r.status_line ≡ ok) ⊎ ((r.status_line ≡ missing) × (f ≡ not_opened)))
