-- ===== src/Epoll/Tag.antt =====
-- The tagged pointers and the events of epoll_oper_event in net/mgx_socket.cpp.
use Prim.Native.Nat.{bit_and, bit_or}
use my_gx.Base.{
  ℕ, ◌+◌, ◌-◌, ◌*◌, ◌^◌, ◌<◌, Bool, true, false, Option, none, some, if◌then◌else◌, ◌≡◌, refl, ap,
  ◌∙◌, arith, ◌==◌, ==_ne, ◌≢◌, subst, ap₂, Bool-cases, inl, inr,
}
use mathlib.Core.Option.{some-injective}
use my_gx.Base.Masks.{bit_or_tag, bit_and_one, bit_and_untag}
use my_gx.Conn.{Conn}
use my_gx.Epoll.{
  tagged, tag_of, conn_at, CtlCall, EsModAction, epoll_oper_event, switch_events, after_switch,
  mod_events, epoll_ctl_add, epoll_ctl_del, epoll_ctl_mod,
}

abbrev pub bit_of : Bool → ℕ
bit_of b = if b then 1 else 0

bit_of_lt : (b : Bool) → bit_of b < 2
bit_of_lt true = omega arith
bit_of_lt false = omega arith

tagged_sum : (c : ℕ) (b : Bool) → tagged c b ≡ 2 * (8 * c) + bit_of b
unfolding tagged
tagged_sum c b =
    ap (λ (p : ℕ). bit_or p (bit_of b)) (omega arith) ∙ bit_or_tag (8 * c) (bit_of b) (bit_of_lt b)

pub tag_of-tagged : (c : ℕ) (b : Bool) → tag_of (tagged c b) ≡ bit_of b
unfolding tag_of
tag_of-tagged c b = omega (arith, bit_and_one (tagged c b), tagged_sum c b, bit_of_lt b)

pub conn_at-tagged : (c : ℕ) (b : Bool) → c < 2 ^ 60 → conn_at (tagged c b) ≡ c
unfolding conn_at
conn_at-tagged c b h =
    let cleared : bit_and (tagged c b) (2 ^ 64 - 2) ≡ 2 * (8 * c) =
      ap (λ (p : ℕ). bit_and p (2 ^ 64 - 2)) (tagged_sum c b)
      ∙ bit_and_untag 63 (8 * c) (bit_of b) (bit_of_lt b) (omega arith) in
    omega (arith, cleared)

-- What one call of epoll_ctl says of the connection `d'` at `a`.
pub record Tells (a : ℕ) (d' : Conn) (call : CtlCall) : Type 0 where
  pub events : call.event.events ≡ d'.events
  pub addr : conn_at call.event.ptr ≡ a
  pub bit : tag_of call.event.ptr ≡ bit_of d'.instance_bit

Tells-switch :
    (ctl_ok : Bool) (fd : Option ℕ) (e_type kept a : ℕ) (d d' : Conn) (call : CtlCall)
    → a < 2 ^ 60
    → after_switch ctl_ok fd e_type a d (some (kept, kept)) ≡ (ctl_ok, d', some call)
    → Tells a d' call
unfolding after_switch
Tells-switch ctl_ok fd e_type kept a d d' call h e =
    subst {A = Conn × CtlCall} (λ r. Tells a r.0 r.1)
      (ap₂ (λ (x : Conn) (y : CtlCall). (x, y)) (ap (λ r. r.1) e)
        (some-injective _ _ (ap (λ r. r.2) e)))
      (record {
        events = refl;
        addr = conn_at-tagged a d.instance_bit h;
        bit = tag_of-tagged a d.instance_bit;
      })

none_told :
    (ctl_ok : Bool) (fd : Option ℕ) (e_type a : ℕ) (d d' : Conn) (call : CtlCall)
    → after_switch ctl_ok fd e_type a d none ≡ (ctl_ok, d', some call)
    → Tells a d' call
unfolding after_switch
none_told ctl_ok fd e_type a d d' call e = cc e

-- For every operation but EPOLL_CTL_DEL, epoll is told the events that the connection remembers,
-- and a pointer from which the connection and its instance bit are read back.
pub epoll_oper_event-Tells :
    (ctl_ok : Bool) (fd : Option ℕ) (e_type es : ℕ) (act : EsModAction) (a : ℕ) (d d' : Conn)
    (call : CtlCall)
    → a < 2 ^ 60
    → e_type ≢ epoll_ctl_del
    → epoll_oper_event ctl_ok fd e_type es act a d ≡ (ctl_ok, d', some call)
    → Tells a d' call
unfolding epoll_oper_event switch_events
epoll_oper_event-Tells ctl_ok fd e_type es act a d d' call h ne e =
    elim (Bool-cases (e_type == epoll_ctl_add)) [
      | inl add ↦ Tells-switch ctl_ok fd e_type es a d d' call h (rw add at e)
      | inr other ↦ elim (Bool-cases (e_type == epoll_ctl_mod)) [
        | inl modify ↦
            Tells-switch ctl_ok fd e_type (mod_events act es d.events) a d d' call h
              (rw (other, modify) at e)
        | inr rest ↦ none_told ctl_ok fd e_type a d d' call (rw (other, rest, ==_ne _ _ ne) at e)
      ]
    ]
