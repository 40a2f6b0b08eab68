-- ===== src/Prelude/Channels.antt =====
-- Buffered channels of Go, as the code uses them.
use Prim.Native.Nat.{ℕ}
use mathlib.Core.Bool.{Bool, true, false}
use mathlib.Core.Option.{Option, none, some}
use mathlib.Core.List.{List, [], ◌∷◌, ◌++◌}
use rtp_http_flv.Prelude.Tests.{ltb, if◌then◌else◌}
use rtp_http_flv.Prelude.Lists.{length}
use rtp_http_flv.Prelude.Go.{Run, done, panics, blocks}

pub record Chan {ℓ} (A : Type ℓ) : Type ℓ where
  pub pending : List A
  pub capacity : ℕ
  pub is_closed : Bool

module _ {ℓ} {A : Type ℓ} where
  abbrev pub make_chan : ℕ → Chan A
  make_chan n = record { pending = []; capacity = n; is_closed = false }

  -- `c <- a` panics on a closed channel, and waits while the buffer is full.
  abbrev pub send : Chan A → A → Run (Chan A)
  send c a =
      if c.is_closed
      then panics
      else if ltb (length c.pending) c.capacity
      then done (record c { pending = c.pending ++ a ∷ [] })
      else blocks

  -- `a, ok := <-c` on the pending values: a closed channel yields what is left, then nothing.
  abbrev pub recv_from : List A → Chan A → Run (Option A × Chan A)
  recv_from [] c = if c.is_closed then done (none, c) else blocks
  recv_from (a ∷ rest) c = done (some a, record c { pending = rest })

  abbrev pub recv : Chan A → Run (Option A × Chan A)
  recv c = recv_from c.pending c

  -- `close(c)` panics on a closed channel.
  abbrev pub close_chan : Chan A → Run (Chan A)
  close_chan c = if c.is_closed then panics else done (record c { is_closed = true })
