-- ===== src/Context/Ledger/Room.antt =====
-- Windows that no acknowledgement of the packets that are out brings to 0.
use native.Mathlib.Nat.{div-le_self}
use simple_quic.Common.{
  ℕ, ◌+◌, ◌*◌, ◌-◌, ◌%◌, ◌^◌, ◌≤◌, ◌<◌, ◌≡◌, refl, ap, subst, ◌∙◌, List, [], ◌∷◌, Bool, true, false,
  map, ltb, ◌==◌, if◌then◌else◌, Bool-cases, Result, ok, ◌>>=◌, arith, ◌⊎◌, inl, inr,
}
use simple_quic.Utils.Interval.Sets.{IntervalSet, contain}
use simple_quic.Context.Congestion.{
  Congestion, CongestionState, is_established, window_by, grown_window, divided_window,
  update_congestion_window_by_ack, packet_acked, max_packet_length,
}
use simple_quic.Context.Ledger.{TimeVal, AckTimer, refreshed}
use simple_quic.Context.Ledger.Timers.{listed, kept_by, unacked, landed_by, landed, land_each}

-- The window is not 0, and does not wrap while acknowledgements of `n` more bytes come in; or the
-- connection is not ESTABLISHED, and the window is not touched.
abbrev pub HasRoom : ℕ → Congestion → Type 0
HasRoom n c =
    (is_established c.cur_state ≡ false)
    ⊎ ((0 < c.window) × (c.window + max_packet_length * n < 2 ^ 64))

-- The bytes of the packets of some timers.
abbrev pub bytes_of : List AckTimer → ℕ
bytes_of [] = 0
bytes_of (t ∷ ts) = t.pkt_len + bytes_of ts

abbrev Opens : ℕ → Result Congestion → Type 0
Opens n r =
    (d : Congestion) × (r ≡ ok d) × ((0 < d.window) × (d.window + max_packet_length * n < 2 ^ 64))

grown_window_lem : (w : ℕ) (c : Congestion) → (grown_window w c).window ≡ w
unfolding grown_window
grown_window_lem w c = elim (Bool-cases (ltb c.threshold w)) [
  | inl e ↦ rw e refl
  | inr e ↦ rw e refl
]

divided_window-Opens :
    (len n : ℕ) (c : Congestion)
    → 0 < c.window
    → c.window + max_packet_length * (len + n) < 2 ^ 64
    → Opens n (divided_window len c)
unfolding divided_window
divided_window-Opens len n c pos room =
    let some_window : (c.window == 0) ≡ false = ground (arith, pos) in
    let small = div-le_self len c.window in
    rw some_window (_, refl, (omega (arith, pos, room, small), omega (arith, pos, room, small)))

window_by-Opens :
    (s : CongestionState) (len n : ℕ) (c : Congestion)
    → 0 < c.window
    → c.window + max_packet_length * (len + n) < 2 ^ 64
    → Opens n (window_by s len c)
unfolding window_by
window_by-Opens CongestionState.slow_start len n c pos room =
    let e = grown_window_lem ((c.window + len) % 2 ^ 64) c in
    (_, refl, (omega (arith, pos, room, e), omega (arith, pos, room, e)))
window_by-Opens CongestionState.recovery len n c pos room = divided_window-Opens len n c pos room
window_by-Opens CongestionState.congestion_avoidance len n c pos room =
    divided_window-Opens len n c pos room

-- On an established connection.
landed_window :
    (b : Bool) (x y : Congestion) (w : ℕ)
    → x.window ≡ w
    → y.window ≡ w
    → (if b then x else y).window ≡ w
landed_window true x y w e e' = e
landed_window false x y w e e' = e'

packet_acked-HasRoom :
    (len n : ℕ) (c : Congestion)
    → HasRoom (len + n) c
    → (d : Congestion) × (packet_acked len c ≡ ok d) × HasRoom n d
unfolding packet_acked update_congestion_window_by_ack
packet_acked-HasRoom len n c (inl closed) = rw closed (c, refl, inl closed)
packet_acked-HasRoom len n c (inr (pos, room)) =
    let landed : Congestion =
      if ltb len c.on_flight
      then record c { on_flight = c.on_flight - len }
      else record c { on_flight = 0 } in
    let same : landed.window ≡ c.window =
      landed_window (ltb len c.on_flight) (record c { on_flight = c.on_flight - len })
        (record c { on_flight = 0 }) c.window refl refl in
    elim (Bool-cases (is_established c.cur_state)) [
      | inl e ↦
          let (d, run, ok_room) =
            window_by-Opens landed.state len n landed (omega (arith, same, pos))
              (omega (arith, same, room)) in
          rw e (d, run, inr ok_room)
      | inr e ↦ rw e (c, refl, inl e)
    ]

pub land_each-HasRoom :
    (ts : List AckTimer) (n : ℕ) (c : Congestion)
    → HasRoom (bytes_of ts + n) c
    → (d : Congestion) × (land_each ts c ≡ ok d) × HasRoom n d
land_each-HasRoom [] n c h = (c, refl, subst (λ k. HasRoom k c) (omega arith) h)
land_each-HasRoom (t ∷ ts) n c h =
    let (d, run, h') =
      packet_acked-HasRoom t.pkt_len (bytes_of ts + n) c
        (subst (λ k. HasRoom k c) (omega arith) h) in
    let (d', run', h'') = land_each-HasRoom ts n d h' in
    (d', ap (λ r. do c' ← r; land_each ts c') run ∙ run', h'')

pub HasRoom-mono : (m n : ℕ) (c : Congestion) → m ≤ n → HasRoom n c → HasRoom m c
HasRoom-mono m n c l (inl closed) = inl closed
HasRoom-mono m n c l (inr (pos, room)) = inr (pos, omega (arith, l, room))

split_bytes :
    (b c : Bool) (t : AckTimer) (ls lm us um : List AckTimer) (k : ℕ)
    → bytes_of ls + bytes_of us ≤ k
    → bytes_of lm + bytes_of um ≤ k
    → bytes_of (landed_by b c t ls lm) + bytes_of (kept_by b c t us um) ≤ t.pkt_len + k
split_bytes false false t ls lm us um k h h' = omega (arith, h')
split_bytes true false t ls lm us um k h h' = omega (arith, h')
split_bytes true true t ls lm us um k h h' = omega (arith, h)
split_bytes false true t ls lm us um k h h' = omega (arith, h)

-- No packet counts as landed and stays too.
pub landed-unacked_bytes :
    (acked : IntervalSet) (ns : List ℕ) (ts : List AckTimer)
    → bytes_of (landed acked ns ts) + bytes_of (unacked acked ns ts) ≤ bytes_of ts
unfolding landed unacked
landed-unacked_bytes acked ns [] = omega arith
landed-unacked_bytes acked ns (t ∷ ts) =
    split_bytes (contain acked t.pkt_num) (listed ns t.pkt_num) t (landed acked ns ts)
      (landed acked (t.pkt_num ∷ ns) ts) (unacked acked ns ts) (unacked acked (t.pkt_num ∷ ns) ts)
      (bytes_of ts) (landed-unacked_bytes acked ns ts)
      (landed-unacked_bytes acked (t.pkt_num ∷ ns) ts)

pub bytes_of-refreshed :
    (now : TimeVal) (ts : List AckTimer) → bytes_of (map (refreshed now) ts) ≡ bytes_of ts
bytes_of-refreshed now [] = refl
bytes_of-refreshed now (t ∷ ts) = ap (λ n. t.pkt_len + n) (bytes_of-refreshed now ts)
