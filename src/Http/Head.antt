-- ===== src/Http/Head.antt =====
-- The head of a request, in http/mgx_http_socket.cpp.
use my_gx.Base.{
  ◌&&◌, Bool, ℕ, ◌+◌, ◌≤◌, ◌<◌, List, [], ◌∷◌, ◌++◌, append_assoc, append-nil, true, false, ltb,
  lt→ltb, length, length-append, ◌≡◌, refl, sym, ap, ◌∙◌, arith,
}
use my_gx.Conf.Lines.{HasNo}
use my_gx.Http.{Peek, cr, lf, recv_buf_size, got, is_crlf, read_head_from, token, strtok}

-- The lines of a head on the wire, and as they stand in recv_buf: each CR LF between two lines has
-- become an LF.
unfoldable pub wire : List (List ℕ) → List ℕ → List ℕ
wire [] rest = cr ∷ lf ∷ rest
wire (l ∷ ls) rest = l ++ (cr ∷ lf ∷ wire ls rest)

unfoldable pub joined : List ℕ → List (List ℕ) → List ℕ
joined l [] = l
joined l (m ∷ ls) = l ++ (lf ∷ joined m ls)

-- A line of a head: it is not empty and has no CR and no LF.
pub record IsLine (l : List ℕ) : Type 0 where
  pub nonempty : 0 < length l
  pub no_cr : HasNo cr l
  pub no_lf : HasNo lf l

abbrev pub AllLines : List (List ℕ) → Type 0
AllLines [] = Unit {0}
AllLines (l ∷ ls) = IsLine l × AllLines ls

stored_line :
    (peek : ℕ → Peek) (held l t : List ℕ)
    → HasNo cr l
    → length held + length l ≤ recv_buf_size
    → read_head_from peek false held (l ++ (cr ∷ t)) ≡ read_head_from peek true (held ++ l) t
unfolding read_head_from
stored_line peek held [] t h k = ap (λ b. read_head_from peek true b t) (sym (append-nil held))
stored_line peek held (b ∷ l) t (h, hs) k =
    let room : ltb (length held) recv_buf_size ≡ true = lt→ltb _ _ (omega (arith, k)) in
    rw (h, room)
      (stored_line peek (held ++ (b ∷ [])) l t hs (omega (arith, k, length-append held (b ∷ [])))
        ∙ ap (λ c. read_head_from peek true c t) (append_assoc held (b ∷ []) l))

no_and : (a : Bool) → (a && false) ≡ false
no_and true = refl
no_and false = refl

no_crlf : (p : Peek) (l s : List ℕ) → IsLine l → is_crlf p (l ++ (cr ∷ lf ∷ s)) ≡ false
unfolding is_crlf
no_crlf p [] s i = absurd (omega (arith, i.nonempty))
no_crlf p (b ∷ []) s i = rw (i.no_cr.0) (no_and (ltb 1 p.there))
no_crlf p (b ∷ c ∷ l) s i = rw (i.no_cr.0) (no_and (ltb 1 p.there))

line_end :
    (peek : ℕ → Peek) (held s : List ℕ)
    → is_crlf (peek (length s)) s ≡ false
    → length held < recv_buf_size
    → read_head_from peek true held (lf ∷ s) ≡ read_head_from peek false (held ++ (lf ∷ [])) s
unfolding read_head_from
line_end peek held s more k =
    let room : ltb (length held) recv_buf_size ≡ true = lt→ltb _ _ k in rw (more, room) refl

-- Whenever the handler peeks, two bytes have come, and the byte behind `buf` is 0.
abbrev pub AllThere : (ℕ → Peek) → Type 0
AllThere peek = (n : ℕ) → (1 < (peek n).there) × ((peek n).nul_behind ≡ true)

head_end :
    (peek : ℕ → Peek) (held rest : List ℕ)
    → AllThere peek
    → read_head_from peek true held (lf ∷ cr ∷ lf ∷ rest) ≡ got held rest
unfolding read_head_from is_crlf
head_end peek held rest all =
    let n = length (cr ∷ lf ∷ rest) in
    let both : ltb 1 (peek n).there ≡ true = lt→ltb _ _ (all n).0 in rw (both, (all n).1) refl

pub read_head-wire :
    (peek : ℕ → Peek) (ls : List (List ℕ)) (held l rest : List ℕ)
    → AllThere peek
    → IsLine l
    → AllLines ls
    → length held + length (joined l ls) ≤ recv_buf_size
    → read_head_from peek false held (wire (l ∷ ls) rest) ≡ got (held ++ joined l ls) rest
unfolding wire joined
read_head-wire peek [] held l rest there i all k =
    stored_line peek held l (lf ∷ cr ∷ lf ∷ rest) i.no_cr k ∙ head_end peek (held ++ l) rest there
read_head-wire peek (m ∷ ls) held l rest there i (j, all) k =
    let s = wire (m ∷ ls) rest in
    let long = length-append l (lf ∷ joined m ls) in
    let len = length-append held l in
    stored_line peek held l (lf ∷ s) i.no_cr (omega (arith, k, long))
    ∙ line_end peek (held ++ l) s (no_crlf (peek (length s)) m (wire ls rest) j)
        (omega (arith, k, long, len))
    ∙ read_head-wire peek ls ((held ++ l) ++ (lf ∷ [])) m rest there j all
        (omega (arith, k, long, len, length-append (held ++ l) (lf ∷ [])))
    ∙ ap (λ b. got b rest) (simp append_assoc)

strtok-append :
    (held l t : List ℕ) → HasNo cr l → HasNo lf l → strtok held (l ++ t) ≡ strtok (held ++ l) t
unfolding strtok
strtok-append held [] t h k = ap (λ b. strtok b t) (sym (append-nil held))
strtok-append held (b ∷ l) t (h, hs) (k, ks) =
    rw (h, k)
      (strtok-append (held ++ (b ∷ [])) l t hs ks
        ∙ ap (λ c. strtok c t) (append_assoc held (b ∷ []) l))

token_some : (l : List ℕ) (ts : List (List ℕ)) → 0 < length l → token l ts ≡ l ∷ ts
unfolding token
token_some [] ts h = absurd (omega (arith, h))
token_some (b ∷ l) ts h = refl

strtok-lf : (held s : List ℕ) → strtok held (lf ∷ s) ≡ token held (strtok [] s)
unfolding strtok
strtok-lf held s = refl

strtok_nil : (held : List ℕ) → strtok held [] ≡ token held []
unfolding strtok
strtok_nil held = refl

pub strtok-joined :
    (ls : List (List ℕ)) (l : List ℕ) → IsLine l → AllLines ls → strtok [] (joined l ls) ≡ l ∷ ls
unfolding joined
strtok-joined [] l i all =
    ap (strtok []) (sym (append-nil l))
    ∙ strtok-append [] l [] i.no_cr i.no_lf
    ∙ strtok_nil l
    ∙ token_some l [] i.nonempty
strtok-joined (m ∷ ls) l i (j, all) =
    strtok-append [] l (lf ∷ joined m ls) i.no_cr i.no_lf
    ∙ strtok-lf l (joined m ls)
    ∙ ap (token l) (strtok-joined ls m j all)
    ∙ token_some l (m ∷ ls) i.nonempty
