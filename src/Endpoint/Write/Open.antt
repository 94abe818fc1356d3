-- ===== src/Endpoint/Write/Open.antt =====
-- WritePacket's bookkeeping: an endpoint is ready if its rings are well-formed and its next sequence
-- number is the one after the newest of the ring of sent packets.
use slept.Prelude.{
  ℕ, ◌+◌, ◌%◌, ◌<◌, ◌≡◌, refl, arith, true, false, List, some, length, get_elem?, set, length-set,
  get_elem?-set_self, lt→ltb,
}
use slept.Prelude.Results.{ok}
use slept.Seq.{IsU16, add16, sub16}
use slept.Packet.Header.{PacketHeader, IsWire}
use slept.Buffer.Slots.{Slots}
use slept.Buffer.Slots.Laws.{IsValid, holds, mod-lt_cap}
use slept.Buffer.Slots.Insert.{Inserted}
use slept.Buffer.Slots.Gaps.{insert_next-Inserted}
use slept.Buffer.Types.{sent_insert, next_ack}
use slept.Buffer.Acks.{next_ack-known}
use slept.Endpoint.{Endpoint, wrap64}
use slept.Endpoint.Write.{open_packet}

pub record IsReady {F : Type 0} (cap window : ℕ) (e : Endpoint F) : Type 0 where
  pub sent_valid : IsValid cap e.sent
  pub half : cap < 32767
  pub in_step : e.sent.buf.latest ≡ e.seq
  pub recv_valid : IsValid window e.recv

-- Writing an entry keeps the ring as it is.
pub set_entry-IsValid :
    {E : Type 0} {cap : ℕ} (s : Slots E) (i : ℕ) (x : E)
    → IsValid cap s
    → IsValid cap (record s { entries = set s.entries i x })
set_entry-IsValid s i x v = record {
  cap_pos = v.cap_pos;
  cap_small = v.cap_small;
  seqs_length = v.seqs_length;
  entries_length = omega (arith, length-set s.entries i x, v.entries_length);
  latest_small = v.latest_small;
  placed = v.placed;
}

-- What the bookkeeping leaves.
pub record Opened {F : Type 0} (cap window : ℕ) (buf : List ℕ) (e e1 : Endpoint F)
    (h : PacketHeader) : Type 0 where
  pub ready : IsReady cap window e1
  pub next_seq : e1.seq ≡ add16 e.seq 1
  pub wire : IsWire h
  pub own_seq : h.seq ≡ e.seq
  pub acks_peer : next_ack e.recv ≡ ok (h.ack, h.acks)
  pub waits : holds e1.sent cap e.seq ≡ true
  pub waiting :
      get_elem? e1.sent.entries (e.seq % cap)
      ≡ some (record {
        time = e.time;
        acked = false;
        size = wrap64 (e.config.packet_header_size + length buf);
      })
  pub same_recv : e1.recv ≡ e.recv

module _ {F : Type 0} {cap window : ℕ} (buf : List ℕ) (e : Endpoint F)
    (r : IsReady cap window e) where
  seq_small : IsU16 e.seq
  seq_small = omega (arith, r.in_step, r.sent_valid.latest_small)

  known :
      {E : Type 0} {s : Slots E} (t : Slots E) {seq : ℕ}
      → Inserted cap s seq t
      → IsU16 seq
      → holds t cap seq ≡ true
  known t {seq} ins small = ground (arith, ins.knows seq small)

  -- A ready endpoint can always take the next sequence number.
  pub open_packet-Opened :
      (e1 : Endpoint F) × (h : PacketHeader) × (open_packet buf e ≡ ok (e1, h))
      × Opened cap window buf e e1 h
  unfolding open_packet sent_insert holds
  open_packet-Opened =
      let (t, ran, ins, on) = insert_next-Inserted e.sent r.sent_valid r.half e.seq r.in_step in
      let (acks, seen, bound, digits) = next_ack-known e.recv r.recv_valid in
      let inside : e.seq % cap < length t.entries =
        omega (arith, ins.valid.entries_length, mod-lt_cap e.seq cap, ins.valid.cap_pos) in
      rw (ran, lt→ltb _ _ inside, seen)
        (
          record e {
            seq = add16 e.seq 1;
            sent = record t {
              entries = set t.entries (e.seq % cap) (record {
                time = e.time;
                acked = false;
                size = wrap64 (e.config.packet_header_size + length buf);
              });
            };
          },
          record { seq = e.seq; ack = sub16 e.recv.buf.latest 1; acks = acks },
          refl,
          record {
            ready = record {
              sent_valid = set_entry-IsValid t _ _ ins.valid;
              half = r.half;
              in_step = rw on at ins.latest_is;
              recv_valid = r.recv_valid;
            };
            next_seq = refl;
            wire = record { seq_small = seq_small; ack_small = omega arith; acks_small = bound };
            own_seq = refl;
            acks_peer = seen;
            waits = known t ins seq_small;
            waiting = get_elem?-set_self t.entries (e.seq % cap) _ inside;
            same_recv = refl;
          },
        )
