-- ===== src/Client/Stale.antt =====
-- The close event of a socket that the client has left behind.
use desktop_remote.Common.{ℕ, ◌+◌, ◌≡◌, refl, false, none, some, ◌==◌}
use desktop_remote.Client.{
  Client, Mode, reject_pending, cancel_heartbeat, request_snapshot, close_client, open_socket,
  say_hello, on_close,
}

-- If the close event of the old socket comes after `close` and a new `connect`, but before the new
-- connection stands, then the client says hello on the new socket without a mode, so that each
-- request of a snapshot throws, and the disconnect listeners have been called once, although the close
-- was intended.
pub on_close_stale :
    {H R S : Type 0}
    → (old new : ℕ) (mode : Mode) (c : Client H R S) → (new == old) ≡ false
    → let d = say_hello mode new (on_close old (open_socket mode new (close_client c))) in
      (d.socket ≡ some new)
      × (d.mode ≡ none)
      × (request_snapshot d ≡ none)
      × (d.disconnects ≡ c.disconnects + 1)
unfolding on_close say_hello open_socket close_client reject_pending cancel_heartbeat
    request_snapshot
on_close_stale old new mode c differs = (rw differs refl, refl, rw differs refl, refl)
