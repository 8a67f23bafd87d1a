-- ===== src/Xsmp.antt =====
-- mate-session/gsm-xsmp-client.c: the SaveYourself protocol with one XSMP client. The connection is
-- there or not; what is sent over it and said to the manager is the list `log`, the latest first.
-- The numbers that X11/SM/SM.h gives to the kinds of save are the record `SmLib`.
pub mod Queue
pub mod Properties
pub mod Command
use mate_session_manager.Base.{
  ℤ, pos, negsuc, int_eq, ℕ, suc, Bool, true, false, not, ◌&&◌, Option, none, some, List, [], ◌∷◌,
  String, if◌then◌else◌, ◌==◌,
}
use Prim.Native.Nat.{bit_and}

-- The value that stands for no SaveYourself.
abbrev pub no_save : ℤ
no_save = negsuc 0

pub record SmLib : Type 0 where
  pub save_global : ℤ
  pub save_local : ℤ
  pub save_both : ℤ

pub data InteractStyle : Type 0 where
  style_none style_any : InteractStyle

-- What is sent to the client, and the response or the request that the manager hears:
-- `save_yourself` with type, shutdown, interact style and fast; `responds` with ok, last, cancel
-- and whether a reason is given.
pub data Message : Type 0 where
  save_yourself : ℤ → Bool → InteractStyle → Bool → Message
  save_yourself_phase2 interact shutdown_cancelled die save_complete : Message
  register_client_reply : String → Message
  responds : Bool → Bool → Bool → Bool → Message
  logout_request : Bool → Message
  disconnected : Message

-- `GsmXSMPClientPrivate`, less the description and the properties.
pub record Xsmp : Type 0 where
  pub is_connected : Bool
  pub current_save_yourself : ℤ
  pub next_save_yourself : ℤ
  pub next_allow_interact : Bool
  pub log : List Message

abbrev pub send : Message → Xsmp → Xsmp
send a x = record x { log = a ∷ x.log }

-- `gsm_xsmp_client_init`, then `gsm_xsmp_client_connect`.
abbrev pub connect : Xsmp
connect = record {
  is_connected = true;
  current_save_yourself = no_save;
  next_save_yourself = no_save;
  next_allow_interact = false;
  log = [];
}

-- The `switch` of `do_save_yourself`.
unfoldable pub save_message : SmLib → ℤ → Bool → Message
save_message lib save_type allow_interact =
    if int_eq save_type lib.save_local
    then save_yourself lib.save_local false style_none false
    else if not allow_interact
    then save_yourself save_type true style_none true
    else save_yourself save_type true style_any false

unfoldable pub do_save_yourself : SmLib → ℤ → Bool → Xsmp → Xsmp
unfolding save_message
do_save_yourself lib save_type allow_interact x =
    if not (int_eq x.next_save_yourself no_save)
    then x
    else if not (int_eq x.current_save_yourself no_save)
    then record x { next_save_yourself = save_type; next_allow_interact = allow_interact }
    else send (save_message lib save_type allow_interact) (record x {
      current_save_yourself = save_type;
      next_save_yourself = no_save;
      next_allow_interact = false;
    })

-- The operations that the manager calls return whether they succeed.
unfoldable pub xsmp_cancel_end_session : Xsmp → Xsmp × Bool
xsmp_cancel_end_session x =
    if x.is_connected
    then (
      send shutdown_cancelled (record x {
        current_save_yourself = no_save;
        next_save_yourself = no_save;
        next_allow_interact = false;
      }),
      true,
    )
    else (x, false)

unfoldable pub xsmp_stop : Xsmp → Xsmp × Bool
xsmp_stop x = if x.is_connected then (send die x, true) else (x, false)

unfoldable pub xsmp_query_end_session : SmLib → ℕ → Xsmp → Xsmp × Bool
unfolding do_save_yourself
xsmp_query_end_session lib flags x =
    if x.is_connected
    then (do_save_yourself lib lib.save_global (bit_and flags 1 == 0) x, true)
    else (x, false)

unfoldable pub xsmp_end_session : SmLib → ℕ → Xsmp → Xsmp × Bool
unfolding do_save_yourself
xsmp_end_session lib flags x =
    if not x.is_connected
    then (x, false)
    else if not (bit_and flags 4 == 0)
    then (send save_yourself_phase2 x, true)
    else (
      do_save_yourself lib (if bit_and flags 2 == 0 then lib.save_global else lib.save_both) false
          x,
      true,
    )

-- The callbacks, for messages of the client. `register_client_callback` once the manager has
-- answered with an identifier that is not empty; `first` says that the client had none.
unfoldable pub register_client_callback : SmLib → String → Bool → Xsmp → Xsmp
register_client_callback lib id first x =
    let n = send (register_client_reply id) x in
    if first
    then send (save_yourself lib.save_local false style_none false)
        (record n { current_save_yourself = lib.save_local })
    else n

unfoldable pub save_yourself_request_callback : SmLib → Bool → Bool → Bool → Xsmp → Xsmp
unfolding do_save_yourself
save_yourself_request_callback lib shutdown fast global x =
    if shutdown && global
    then send (logout_request (not fast)) x
    else if not shutdown && not global
    then do_save_yourself lib lib.save_local true x
    else x

unfoldable pub save_yourself_phase2_request_callback : Xsmp → Xsmp
save_yourself_phase2_request_callback x =
    send (responds true true false false) (record x { current_save_yourself = no_save })

unfoldable pub interact_request_callback : Xsmp → Xsmp
interact_request_callback x = send interact (send (responds false false false true) x)

unfoldable pub interact_done_callback : Bool → Xsmp → Xsmp
interact_done_callback cancel_shutdown x = send (responds true false cancel_shutdown false) x

-- The `if` on `next_save_yourself` is C's: it is taken unless the number is 0.
unfoldable pub save_yourself_done_callback : SmLib → Xsmp → Xsmp
unfolding do_save_yourself
save_yourself_done_callback lib x =
    let n =
      if int_eq x.current_save_yourself no_save
      then x
      else send save_complete (record x { current_save_yourself = no_save }) in
    let m = send (responds true false false false) n in
    if int_eq m.next_save_yourself (pos 0)
    then m
    else do_save_yourself lib m.next_save_yourself m.next_allow_interact
        (record m { next_save_yourself = no_save; next_allow_interact = true })

unfoldable pub close_connection_callback : Xsmp → Xsmp
close_connection_callback x = send disconnected x
