-- ===== src/Connection/Notify/Closing.antt =====
-- connection/core.rs: what `notify_closed` leaves behind.
use mqtt_protocol_core.Common.{
  ℕ, ◌≤◌, ◌≡◌, refl, inl, inr, false, List, [], ◌∷◌, some, All, arith, Bool-cases, if◌then◌else◌,
  ◌∙◌, sym, ap, subst,
}
use mqtt_protocol_core.Allocator.Laws.{IsValid}
use mqtt_protocol_core.PacketId.{PacketIdManager}
use mqtt_protocol_core.PacketId
use mqtt_protocol_core.PacketId.Unique.{release_id-is_used_id}
use mqtt_protocol_core.Connection.{
  Connection, TimerKind, GenericEvent, and_then, release_packet_id, release_all, emit,
  notify_packet_id_released, cancel_pingreq_send, cancel_pingreq_recv, cancel_pingresp_recv,
  cancel_timers, disconnected,
}
use mqtt_protocol_core.Connection.Timers.{flag, cancel_timers-flag}
use mqtt_protocol_core.Connection.Notify.{notify_closed, release_publish_ids, reset_connection}

-- An identifier of the range.
abbrev pub IsIdUpTo : ℕ → ℕ → Type 0
IsIdUpTo highest id = (1 ≤ id) × (id ≤ highest)

-- A connection whose manager is valid has released an identifier of the range, whether it was in use
-- or not, with nothing else changed.
release_packet_id-total :
    (c : Connection) (id : ℕ)
    → IsValid c.pid_man.allocator
    → c.pid_man.allocator.lowest ≤ id
    → id ≤ c.pid_man.allocator.highest
    → (m : PacketIdManager) × (es : List GenericEvent) × (release_packet_id id c
        ≡ some (record c { pid_man = m; events = es }))
      × IsValid m.allocator
      × (m.allocator.lowest ≡ c.pid_man.allocator.lowest)
      × (m.allocator.highest ≡ c.pid_man.allocator.highest)
unfolding release_packet_id emit
release_packet_id-total c id iv lo hi = elim (Bool-cases (PacketId.is_used_id c.pid_man id)) [
  | inl used ↦
      let (m, e, same, valid, el, eh) = release_id-is_used_id c.pid_man id id iv lo hi used in
      (m, (emit (notify_packet_id_released id) c).events, rw (used, e) refl, valid, el, eh)
  | inr free ↦ (c.pid_man, c.events, rw free refl, iv, refl, refl)
]

-- Draining a set of such identifiers.
release_all-total :
    (ids : List ℕ) (c : Connection) (highest : ℕ)
    → IsValid c.pid_man.allocator
    → c.pid_man.allocator.lowest ≡ 1
    → c.pid_man.allocator.highest ≡ highest
    → All (IsIdUpTo highest) ids
    → (m : PacketIdManager) × (es : List GenericEvent) × (release_all ids c
        ≡ some (record c { pid_man = m; events = es }))
      × IsValid m.allocator
      × (m.allocator.lowest ≡ 1)
      × (m.allocator.highest ≡ highest)
unfolding release_all and_then
release_all-total [] c highest iv el eh all = (c.pid_man, c.events, refl, iv, el, eh)
release_all-total (id ∷ ids) c highest iv el eh ((lo, hi), all) =
    let (m, es, e, v, el', eh') = release_packet_id-total c id iv (omega arith) (omega arith) in
    let (m', es', e', v', el'', eh'') =
      release_all-total ids (record c { pid_man = m; events = es }) highest v (omega arith)
        (omega arith) all in
    (m', es', rw (e, e') refl, v', el'', eh'')

-- The identifiers of unfinished deliveries are given back, and nothing else of what follows changes.
release_publish_ids-total :
    (c : Connection) (highest : ℕ)
    → IsValid c.pid_man.allocator
    → c.pid_man.allocator.lowest ≡ 1
    → c.pid_man.allocator.highest ≡ highest
    → All (IsIdUpTo highest) c.pid_puback
    → All (IsIdUpTo highest) c.pid_pubrec
    → All (IsIdUpTo highest) c.pid_pubcomp
    → (m : PacketIdManager) × (es : List GenericEvent) × (release_publish_ids c
        ≡ some (record c {
          pid_man = m;
          events = es;
          qos2_publish_handled = [];
          pid_puback = [];
          pid_pubrec = [];
          pid_pubcomp = [];
        }))
      × IsValid m.allocator
unfolding release_publish_ids and_then
release_publish_ids-total c highest iv el eh a b d =
    let c₀ : Connection = record c { qos2_publish_handled = []; pid_puback = [] } in
    let (m₁, es₁, e₁, v₁, l₁, h₁) = release_all-total c.pid_puback c₀ highest iv el eh a in
    let c₁ : Connection = record c₀ { pid_man = m₁; events = es₁; pid_pubrec = [] } in
    let (m₂, es₂, e₂, v₂, l₂, h₂) = release_all-total c.pid_pubrec c₁ highest v₁ l₁ h₁ b in
    let c₂ : Connection = record c₁ { pid_man = m₂; events = es₂; pid_pubcomp = [] } in
    let (m₃, es₃, e₃, v₃, l₃, h₃) = release_all-total c.pid_pubcomp c₂ highest v₂ l₂ h₂ d in
    (m₃, es₃, rw (e₁, e₂, e₃) refl, v₃)

-- What is left of the connection when the identifiers are given back.
closing-total :
    (c : Connection) (highest : ℕ)
    → IsValid c.pid_man.allocator
    → c.pid_man.allocator.lowest ≡ 1
    → c.pid_man.allocator.highest ≡ highest
    → All (IsIdUpTo highest) c.pid_puback
    → All (IsIdUpTo highest) c.pid_pubrec
    → All (IsIdUpTo highest) c.pid_pubcomp
    → (c' : Connection) × ((if c.need_store then some c else release_publish_ids c) ≡ some c')
      × IsValid c'.pid_man.allocator
      × (c'.status ≡ c.status)
      × (c'.pid_suback ≡ c.pid_suback)
      × (c'.pid_unsuback ≡ c.pid_unsuback)
      × (c'.store ≡ c.store)
      × (c'.pid_puback ≡ (if c.need_store then c.pid_puback else []))
closing-total c highest iv el eh a b d = elim (Bool-cases c.need_store) [
  | inl keep ↦ (
    c,
    ap (λ x. if x then some c else release_publish_ids c) keep,
    iv,
    refl,
    refl,
    refl,
    refl,
    sym (ap (λ x. if x then c.pid_puback else []) keep),
  )
  | inr drop ↦
      let (m, es, e, v) = release_publish_ids-total c highest iv el eh a b d in
      (
        record c {
          pid_man = m;
          events = es;
          qos2_publish_handled = [];
          pid_puback = [];
          pid_pubrec = [];
          pid_pubcomp = [];
        },
        ap (λ x. if x then some c else release_publish_ids c) drop ∙ e,
        v,
        refl,
        refl,
        refl,
        refl,
        sym (ap (λ x. if x then c.pid_puback else []) drop),
      )
]

cancel_timers-keeps :
    (c : Connection)
    → ((cancel_timers c).status ≡ c.status)
      × ((cancel_timers c).pid_man ≡ c.pid_man)
      × ((cancel_timers c).pid_suback ≡ c.pid_suback)
      × ((cancel_timers c).pid_unsuback ≡ c.pid_unsuback)
      × ((cancel_timers c).pid_puback ≡ c.pid_puback)
      × ((cancel_timers c).store ≡ c.store)
unfolding cancel_timers cancel_pingreq_send cancel_pingreq_recv cancel_pingresp_recv emit
cancel_timers-keeps c =
    (ground arith, ground arith, ground arith, ground arith, ground arith, ground arith)

-- When the packet identifiers that wait for an answer are in the range of a valid manager, closing
-- cannot panic. It leaves the connection disconnected with no timer set and no request pending, keeps
-- the stored packets, keeps the set of identifiers that wait for a PUBACK if the session is kept and
-- empties it else, and leaves the manager valid.
pub notify_closed-total :
    (c : Connection) (highest : ℕ) (k : TimerKind)
    → IsValid c.pid_man.allocator
    → c.pid_man.allocator.lowest ≡ 1
    → c.pid_man.allocator.highest ≡ highest
    → All (IsIdUpTo highest) c.pid_suback
    → All (IsIdUpTo highest) c.pid_unsuback
    → All (IsIdUpTo highest) c.pid_puback
    → All (IsIdUpTo highest) c.pid_pubrec
    → All (IsIdUpTo highest) c.pid_pubcomp
    → (c' : Connection) × (notify_closed c ≡ some c')
      × (c'.status ≡ disconnected)
      × (flag k c' ≡ false)
      × (c'.pid_suback ≡ [])
      × (c'.pid_unsuback ≡ [])
      × (c'.store ≡ c.store)
      × (c'.pid_puback ≡ (if c.need_store then c.pid_puback else []))
      × IsValid c'.pid_man.allocator
unfolding notify_closed and_then reset_connection
notify_closed-total c highest k iv el eh s u a b d =
    let c₀ : Connection = record (reset_connection c) { pid_suback = [] } in
    let (m₁, es₁, e₁, v₁, l₁, h₁) = release_all-total c.pid_suback c₀ highest iv el eh s in
    let c₁ : Connection = record c₀ { pid_man = m₁; events = es₁; pid_unsuback = [] } in
    let (m₂, es₂, e₂, v₂, l₂, h₂) = release_all-total c.pid_unsuback c₁ highest v₁ l₁ h₁ u in
    let c₂ : Connection = record c₁ { pid_man = m₂; events = es₂ } in
    let (c', e₃, v₃, st, su, un, sto, pu) = closing-total c₂ highest v₂ l₂ h₂ a b d in
    let (kst, km, ksu, kun, kpu, ksto) = cancel_timers-keeps c' in
    (
      cancel_timers c',
      rw (e₁, e₂, e₃) refl,
      kst ∙ st,
      cancel_timers-flag c' k,
      ksu ∙ su,
      kun ∙ un,
      ksto ∙ sto,
      kpu ∙ pu,
      subst (λ m. IsValid m.allocator) (sym km) v₃,
    )
