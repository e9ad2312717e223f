-- ===== src/Parser/Ready.antt =====
-- The table of clients between two chunks, in step with the streams of the specification.
use counter_drone_streaming.Base.{
  ℕ, ◌≡◌, refl, arith, inl, inr, ℤ, int_eq, List, [], All, none, if◌then◌else◌, Bool-cases,
}
use counter_drone_streaming.Ring.{create, default_capacity}
use counter_drone_streaming.Ring.Valid.{IsByte, create-IsValid}
use counter_drone_streaming.Telemetry.{DataChunk}
use counter_drone_streaming.Table.{put, remove, int_key}
use counter_drone_streaming.Table.Laws.{find?-put, find?-remove}
use counter_drone_streaming.Client.{ClientState, Outputs, fresh_client}
use counter_drone_streaming.Client.Good.{IsGood}
use counter_drone_streaming.Client.Step.{unread}
use counter_drone_streaming.Client.Frame.{next}
use counter_drone_streaming.Client.Front.{next_few}
use counter_drone_streaming.Parser.{Parser, client_of}
use counter_drone_streaming.Parser.Spec.{Pending, hold}

-- A client between two chunks: its buffer is of the default size and holds no whole packet.
pub record IsReady (c : ClientState) : Type 0 where
  pub good : IsGood c
  pub full_size : c.ring_buffer.capacity ≡ default_capacity
  pub waits : next (unread c) ≡ none

-- The table against the streams: every entry is ready, and holds what its stream waits with.
pub record Holds (p : Parser) (w : Pending) : Type 0 where
  pub ready : (id : ℤ) → IsReady (client_of id p)
  pub bytes : (id : ℤ) → unread (client_of id p) ≡ w id

-- A chunk of bytes, of any length.
abbrev pub IsChunk : DataChunk → Type 0
IsChunk chunk = All IsByte chunk.bytes

pub fresh_client-IsReady : IsReady fresh_client
unfolding fresh_client create
fresh_client-IsReady = record {
  good = record { ring = create-IsValid 65536 (omega arith) (omega arith); found = tt };
  full_size = refl;
  waits = next_few [] (omega arith);
}

client_of-put :
    (id j : ℤ) (c : ClientState) (p : Parser) (o : Outputs)
    → client_of j (record { clients = put id c p.clients; outputs = o })
      ≡ (if int_eq id j then c else client_of j p)
unfolding client_of
client_of-put id j c p o = ground (arith, find?-put id j c p.clients)

pub client_of-remove :
    (id j : ℤ) (p : Parser) (o : Outputs)
    → client_of j (record { clients = remove id p.clients; outputs = o })
      ≡ (if int_eq id j then fresh_client else client_of j p)
unfolding client_of
client_of-remove id j p o = ground (arith, find?-remove id j p.clients)

pub Holds-put :
    (p : Parser) (w : Pending) (id : ℤ) (c : ClientState) (bs : List ℕ) (o : Outputs)
    → Holds p w
    → IsReady c
    → unread c ≡ bs
    → Holds (record { clients = put id c p.clients; outputs = o }) (hold id bs w)
Holds-put p w id c bs o h g b = record {
  ready = λ j. elim (Bool-cases (int_eq id j)) [
    | inl hit ↦ rw (client_of-put id j c p o, hit) g
    | inr miss ↦ rw (client_of-put id j c p o, miss) (h.ready j)
  ];
  bytes = λ j. elim (Bool-cases (int_eq id j)) [
    | inl hit ↦ rw (client_of-put id j c p o, hit) b
    | inr miss ↦ rw (client_of-put id j c p o, miss) (h.bytes j)
  ];
}

pub Holds-remove :
    (p : Parser) (w : Pending) (id : ℤ) (o : Outputs)
    → Holds p w
    → Holds (record { clients = remove id p.clients; outputs = o }) (hold id [] w)
unfolding fresh_client create
Holds-remove p w id o h = record {
  ready = λ j. elim (Bool-cases (int_eq id j)) [
    | inl hit ↦ rw (client_of-remove id j p o, hit) fresh_client-IsReady
    | inr miss ↦ rw (client_of-remove id j p o, miss) (h.ready j)
  ];
  bytes = λ j. elim (Bool-cases (int_eq id j)) [
    | inl hit ↦ rw (client_of-remove id j p o, hit)
    | inr miss ↦ rw (client_of-remove id j p o, miss) (h.bytes j)
  ];
}
