-- ===== src/Fifo.antt =====
-- The queues of src/common/hci_bridge.c. HCI_BRIDGE holds four rings of the same shape (fixed
-- slots, head, tail and count); here that shape is one record, and each of the three things that
-- the code does to a ring is one function. A slot's Data with its Length is a list of bytes.
pub mod Queue
use virt_bth_usb.Common.{ℕ, ◌+◌, ◌-◌, ◌%◌, List, [], ◌∷◌, get_or, set, replicate}

pub record Fifo : Type 0 where
  pub slots : List (List ℕ)
  pub head : ℕ
  pub tail : ℕ
  pub count : ℕ

-- A ring of `depth` slots after memset.
unfoldable pub empty_fifo : ℕ → Fifo
empty_fifo depth = record { slots = replicate depth []; head = 0; tail = 0; count = 0 }

-- HciBridgeReset leaves the slots' bytes alone.
unfoldable pub rewind : Fifo → Fifo
rewind f = record f { head = 0; tail = 0; count = 0 }

-- The packet in the oldest slot.
abbrev pub front : Fifo → List ℕ
front f = get_or f.slots f.head []

unfoldable pub drop_front : ℕ → Fifo → Fifo
drop_front depth f = record f { head = (f.head + 1) % depth; count = f.count - 1 }

unfoldable pub append_back : ℕ → Fifo → List ℕ → Fifo
append_back depth f packet = record f {
  slots = set f.slots f.tail packet;
  tail = (f.tail + 1) % depth;
  count = f.count + 1;
}
