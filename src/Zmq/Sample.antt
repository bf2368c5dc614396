-- ===== src/Zmq/Sample.antt =====
-- A library in which every call succeeds, for examples. Its state counts the sockets made and the
-- parts received; every message has three parts, and each part is the text "hi".
use zeromq_agent.Base.{ℕ, ◌+◌, ◌-◌, ◌%◌, ◌<◌, ◌≡◌, refl, true, none, [], ◌∷◌, arith, length, ◌==◌}
use zeromq_agent.Base.Int.{ℤ, pos, is_nonzero}
use zeromq_agent.Memory.{Ptr, Bytes, Heap, grow, put}
use zeromq_agent.Memory.Laws.{
  defined, block-grow, read-block, read_cells-defined, read-put, block-put_ne, IsHeap,
}
use zeromq_agent.Zmq.{Zmq, Machine}
use native.Mathlib.Nat.{le_refl}
use zeromq_agent.Zmq.Laws.{ManagesBuffers, EndsMessages, KeepsBuffers}

pub record SampleMsg : Type 0 where
  pub start : Ptr
  pub size : ℕ
  pub more : ℤ

abbrev pub hi : Bytes
hi = b'h' ∷ b'i' ∷ []

abbrev pub next_part : ℕ → Heap → SampleMsg
next_part w h = record { start = h.next; size = 2; more = pos (2 - w % 3) }

abbrev pub sample : Zmq
sample = record {
  World = ℕ;
  Msg = SampleMsg;
  errno = λ w. w;
  zmq_strerror = λ n. "error";
  zmq_ctx_new = λ w. (50, w);
  zmq_ctx_destroy = λ ctx w. (pos 0, w);
  zmq_socket = λ ctx kind w. (w + 100, w + 1);
  zmq_close = λ s w. (pos 0, w);
  zmq_connect = λ s url w. (pos 0, w);
  zmq_bind = λ s url w. (pos 0, w);
  zmq_setsockopt = λ s option value w. (pos 0, w);
  zmq_send = λ s xs flags w. (pos (length xs), w);
  zmq_recv = λ s len flags w. (pos 3, b'h' ∷ b'i' ∷ 0 ∷ [], w);
  zmq_proxy = λ front back w. (pos 0, w);
  zmq_poll = λ sockets revents w. (λ i. i == 0, w);
  zmq_msg_init = λ w. (pos 0, record { start = 0; size = 0; more = pos 0 }, w);
  zmq_msg_init_data = λ p n w. (pos 0, record { start = p; size = n; more = pos 0 }, w);
  zmq_msg_recv = λ msg s flags w h. (pos 2, next_part w h, w + 1, grow (defined hi []) h);
  zmq_msg_send = λ msg s flags w h. (pos msg.size, record { start = 0; size = 0; more = pos 0 }, w);
  zmq_msg_data = λ msg. msg.start;
  zmq_msg_size = λ msg. msg.size;
  zmq_msg_more = λ msg. msg.more;
  zmq_msg_close = λ msg w h. (pos 0, w, put h msg.start none);
}

-- The state of a process at its start.
abbrev pub fresh : Machine sample
fresh = record { world = 0; heap = record { next = 1; block = λ _. none }; trace = [] }

pub fresh-IsHeap : IsHeap fresh.heap
fresh-IsHeap = record { next_pos = omega arith; no_null = refl; unused = λ _ _. refl }

pub sample-ManagesBuffers : ManagesBuffers sample
sample-ManagesBuffers = record {
  delivers =
      λ msg s flags w h _. (hi, read-block _ h.next 2 (block-grow _ h) (read_cells-defined hi []));
  starts_empty = λ w. refl;
  stays_empty = λ msg s flags w h e. cc;
  frees = λ msg s flags w h k _ some_bytes. read-put h.next k (grow (defined hi []) h) some_bytes;
}

pub sample-KeepsBuffers : KeepsBuffers sample
sample-KeepsBuffers p n s flags w h some_address = block-put_ne h 0 _ p (omega arith)

pub parts_fall : (w : ℕ) → is_nonzero (pos (2 - w % 3)) ≡ true → 2 - (w + 1) % 3 < 2 - w % 3
parts_fall w h = ground arith

pub parts_below : (w : ℕ) → 2 - w % 3 < 3
parts_below w = omega arith

abbrev pub sample_ends : EndsMessages sample
sample_ends = record {
  parts = λ s w. 2 - w % 3;
  bound = 3;
  below = λ s w. parts_below w;
  made = λ s w. le_refl (2 - w % 3);
  received = λ msg s flags w h e. parts_fall w e;
  sent = λ msg t flags w h s. le_refl (2 - w % 3);
  closed = λ msg w h s. le_refl (2 - w % 3);
}
