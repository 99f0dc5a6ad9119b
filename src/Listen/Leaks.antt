-- ===== src/Listen/Leaks.antt =====
-- Which sockets open_listen_skts of net/mgx_socket.cpp leaves open.
use my_gx.Base.{
  append_assoc, ℕ, zero, suc, ◌+◌, List, [], ◌∷◌, ◌++◌, append-nil, Bool, true, false, Option, none,
  some, if◌then◌else◌, if_true, if_false, ◌≡◌, refl, sym, ap, ap₂, ◌∙◌, subst, Bool-cases,
  Option-cases, inl, inr,
}
use mathlib.Core.Option.{some-injective}
use my_gx.Conf.{Configs, ℤ}
use my_gx.Listen.{
  NetConf, ListenSkt, Calls, Sockets, give_up, bind_listen, port_of, with_socket, open_from, rounds,
  open_listen_skts, fds,
}

fds-append : (xs ys : List ListenSkt) → fds (xs ++ ys) ≡ fds xs ++ fds ys
unfolding fds
fds-append [] ys = refl
fds-append (x ∷ xs) ys = ap (◌∷◌ x.fd) (fds-append xs ys)

-- A listening socket that a round has made: the one that socket returned, on the port of the round, and
-- setsockopt with SO_REUSEADDR, bind and listen have succeeded on it.
pub record MadeBy (calls : Calls) (port : ℤ) (skt : ListenSkt) : Type 0 where
  pub its_socket : calls.socket ≡ some skt.fd
  pub its_port : skt.port ≡ port
  pub reused : calls.reuse_addr ≡ true
  pub bound : calls.bind ≡ true
  pub listens : calls.listen ≡ true

-- What the rounds from round i on add on success: a listening socket for each.
pub data Listening (calls : ℕ → Calls) (ports : ℕ → ℤ) : ℕ → ℕ → List ListenSkt → Type 0 where
  no_round : (i : ℕ) → Listening calls ports i zero []
  round :
      (i left : ℕ) (skt : ListenSkt) (skts : List ListenSkt)
      → MadeBy (calls i) (ports i) skt
      → Listening calls ports (i + 1) left skts
      → Listening calls ports i (suc left) (skt ∷ skts)

-- After rounds from `s`: the sockets opened are the listening ones and those closed, and on success
-- each round has added its listening socket and none is closed.
pub record Rounds (calls : ℕ → Calls) (ports : ℕ → ℤ) (i left : ℕ) (s : Sockets)
    (r : Bool × Sockets) : Type 0 where
  pub no_leak : r.1.opened ≡ fds r.1.m_listen_skts ++ r.1.closed
  pub complete :
      r.0 ≡ true
      → (skts : List ListenSkt) × (r.1.m_listen_skts ≡ s.m_listen_skts ++ skts)
        × Listening calls ports i left skts
        × (r.1.closed ≡ [])

-- A state in which nothing has been closed.
pub record AllListen (s : Sockets) : Type 0 where
  pub opened : s.opened ≡ fds s.m_listen_skts
  pub closed : s.closed ≡ []

-- What a round leads to: its listening socket is pushed, or it fails and leaves no socket open.
pub data Pushed (calls : Calls) (port : ℤ) (s : Sockets) (r : Bool × Sockets) : Type 0 where
  pushed :
      (skt : ListenSkt)
      → MadeBy calls port skt
      → AllListen r.1
      → r.1.m_listen_skts ≡ s.m_listen_skts ++ (skt ∷ [])
      → r.0 ≡ true
      → Pushed calls port s r
  failed : r.1.opened ≡ fds r.1.m_listen_skts ++ r.1.closed → r.0 ≡ false → Pushed calls port s r

give_up-Pushed :
    (calls : Calls) (port : ℤ) (fd : ℕ) (s : Sockets)
    → AllListen s
    → Pushed calls port s (give_up fd (record s { opened = s.opened ++ (fd ∷ []) }))
unfolding give_up
give_up-Pushed calls port fd s a =
    failed (ap₂ (λ (l k : List ℕ). l ++ (k ++ (fd ∷ []))) a.opened (sym a.closed)) refl

bind_listen-Pushed :
    (calls : Calls) (fd : ℕ) (port : ℤ) (s : Sockets)
    → calls.socket ≡ some fd
    → calls.reuse_addr ≡ true
    → AllListen s
    → Pushed calls port s (bind_listen calls fd port (record s { opened = s.opened ++ (fd ∷ []) }))
unfolding bind_listen fds
bind_listen-Pushed calls fd port s its reused a = elim (Bool-cases calls.bind) [
  | inr unbound ↦
      subst (Pushed calls port s) (sym (if_false calls.bind _ _ unbound))
        (give_up-Pushed calls port fd s a)
  | inl bound ↦ elim (Bool-cases calls.listen) [
    | inr deaf ↦
        subst (Pushed calls port s)
          (sym (if_true calls.bind _ _ bound ∙ if_false calls.listen _ _ deaf))
          (give_up-Pushed calls port fd s a)
    | inl listens ↦
        let skt : ListenSkt = record { port = port; fd = fd } in
        let made : MadeBy calls port skt = record {
          its_socket = its;
          its_port = refl;
          reused = reused;
          bound = bound;
          listens = listens;
        } in
        subst (Pushed calls port s)
          (sym (if_true calls.bind _ _ bound ∙ if_true calls.listen _ _ listens))
          (pushed skt made
            (record {
              opened =
                  ap (λ l. l ++ (fd ∷ [])) a.opened ∙ sym (fds-append s.m_listen_skts (skt ∷ []));
              closed = a.closed;
            })
            refl refl)
  ]
]

with_socket-Pushed :
    (calls : Calls) (i : ℕ) (socket : Option ℕ) (configs : Configs) (s : Sockets) (port : ℤ)
    (r : Bool × Sockets)
    → calls.socket ≡ socket
    → port_of i configs ≡ some port
    → AllListen s
    → with_socket calls i socket configs s ≡ some r
    → Pushed calls port s r
unfolding with_socket
with_socket-Pushed calls i none configs s port r its found a e =
    subst (Pushed calls port s) (some-injective _ _ e)
      (failed (a.opened ∙ sym (ap (λ l. fds s.m_listen_skts ++ l) a.closed ∙ append-nil _)) refl)
with_socket-Pushed calls i (some fd) configs s port r its found a e =
    elim (Bool-cases calls.reuse_addr) [
      | inr refused ↦
          subst (Pushed calls port s) (some-injective _ _ (rw refused at e))
            (give_up-Pushed calls port fd s a)
      | inl reused ↦
          subst (Pushed calls port s) (some-injective _ _ (rw (reused, found) at e))
            (bind_listen-Pushed calls fd port s its reused a)
    ]

add-Rounds :
    (calls : ℕ → Calls) (ports : ℕ → ℤ) (i left : ℕ) (s t : Sockets) (r : Bool × Sockets)
    (skt : ListenSkt)
    → MadeBy (calls i) (ports i) skt
    → t.m_listen_skts ≡ s.m_listen_skts ++ (skt ∷ [])
    → Rounds calls ports (i + 1) left t r
    → Rounds calls ports i (suc left) s r
add-Rounds calls ports i left s t r skt made one_more later = record {
  no_leak = later.no_leak;
  complete = λ e.
      let (skts, all, listening, none_closed) = later.complete e in
      (
        skt ∷ skts,
        all ∙ ap (λ l. l ++ skts) one_more ∙ append_assoc s.m_listen_skts (skt ∷ []) skts,
        round i left skt skts made listening,
        none_closed,
      );
}

-- What follows a round.
after :
    (calls : ℕ → Calls) (ports : ℕ → ℤ) (left i : ℕ) (configs : Configs) (s : Sockets)
    (q r : Bool × Sockets)
    → Pushed (calls i) (ports i) s q
    → (AllListen q.1
        → open_from left (i + 1) calls configs q.1 ≡ some r
        → Rounds calls ports (i + 1) left q.1 r)
    → (if q.0 then open_from left (i + 1) calls configs q.1 else some q) ≡ some r
    → Rounds calls ports i (suc left) s r
after calls ports left i configs s q r (pushed skt made a one_more ok) rest e =
    add-Rounds calls ports i left s q.1 r skt made one_more (rest a (sym (if_true q.0 _ _ ok) ∙ e))
after calls ports left i configs s q r (failed no_leak bad) rest e =
    subst (Rounds calls ports i (suc left) s) (some-injective _ _ (sym (if_false q.0 _ _ bad) ∙ e))
      (record { no_leak = no_leak; complete = λ ok. absurd (cc (ok, bad)) })

open_from-Rounds :
    (calls : ℕ → Calls) (ports : ℕ → ℤ) (left i : ℕ) (configs : Configs) (s : Sockets)
    (r : Bool × Sockets)
    → ((k : ℕ) → port_of k configs ≡ some (ports k))
    → AllListen s
    → open_from left i calls configs s ≡ some r
    → Rounds calls ports i left s r
unfolding open_from
open_from-Rounds calls ports zero i configs s r found a e =
    subst (Rounds calls ports i 0 s) (some-injective _ _ e) (record {
      no_leak = a.opened ∙ sym (ap (λ l. fds s.m_listen_skts ++ l) a.closed ∙ append-nil _);
      complete = λ ok. ([], sym (append-nil s.m_listen_skts), no_round i, a.closed);
    })
open_from-Rounds calls ports (suc left) i configs s r found a e =
    elim (Option-cases (with_socket (calls i) i (calls i).socket configs s)) [
      | inl thrown ↦ absurd (cc (rw thrown at e))
      | inr (q, reached) ↦
          after calls ports left i configs s q r
            (with_socket-Pushed (calls i) i (calls i).socket configs s (ports i) q refl (found i) a
              reached)
            (λ b. open_from-Rounds calls ports left (i + 1) configs q.1 r found b) (rw reached at e)
    ]

with_socket_ends :
    (calls : Calls) (i : ℕ) (socket : Option ℕ) (configs : Configs) (s : Sockets) (listen_port : ℤ)
    → port_of i configs ≡ some listen_port
    → (r : Bool × Sockets) × (with_socket calls i socket configs s ≡ some r)
unfolding with_socket
with_socket_ends calls i none configs s listen_port e = (_, refl)
with_socket_ends calls i (some fd) configs s listen_port e = elim (Bool-cases calls.reuse_addr) [
  | inl reused ↦ (
    bind_listen calls fd listen_port (record s { opened = s.opened ++ (fd ∷ []) }),
    rw (reused, e) refl,
  )
  | inr refused ↦ (give_up fd (record s { opened = s.opened ++ (fd ∷ []) }), rw refused refl)
]

open_from_ends :
    (left i : ℕ) (calls : ℕ → Calls) (configs : Configs) (s : Sockets) (ports : ℕ → ℤ)
    → ((i : ℕ) → port_of i configs ≡ some (ports i))
    → (r : Bool × Sockets) × (open_from left i calls configs s ≡ some r)
unfolding open_from
open_from_ends zero i calls configs s ports e = (_, refl)
open_from_ends (suc left) i calls configs s ports e =
    let (q, reached) = with_socket_ends (calls i) i (calls i).socket configs s (ports i) (e i) in
    elim (Bool-cases q.0) [
      | inr bad ↦ (q, rw reached (if_false q.0 _ _ bad))
      | inl ok ↦
          let (r, ended) = open_from_ends left (i + 1) calls configs q.1 ports e in
          (r, rw reached (if_true q.0 _ _ ok ∙ ended))
    ]

-- Where the configuration has a number, or nothing, for every port, and nothing has been closed before,
-- open_listen_skts ends, by success or
-- by a failure of a system call: every socket that it opened is a listening one or closed again. On
-- success it has added one listening socket for each round, in order: the one that socket returned in
-- that round, with the port that the configuration has for it, and on which setsockopt, bind and
-- listen have succeeded; and none was closed.
pub open_listen_skts-Rounds :
    (conf : NetConf) (calls : ℕ → Calls) (configs : Configs) (s : Sockets) (ports : ℕ → ℤ)
    → AllListen s
    → ((i : ℕ) → port_of i configs ≡ some (ports i))
    → (r : Bool × Sockets) × (open_listen_skts conf calls configs s ≡ some r)
      × Rounds calls ports 0 (rounds conf.m_listen_cnt) s r
unfolding open_listen_skts
open_listen_skts-Rounds conf calls configs s ports a e =
    let left = rounds conf.m_listen_cnt in
    let (r, ended) = open_from_ends left 0 calls configs s ports e in
    (r, ended, open_from-Rounds calls ports left 0 configs s r e a ended)
