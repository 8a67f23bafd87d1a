-- ===== src/Xsmp/Queue.antt =====
-- The queue of one SaveYourself (mate-session/gsm-xsmp-client.c).
use mate_session_manager.Base.{
  ℤ, pos, int_eq, ℕ, ◌≡◌, Bool, true, false, ◌∷◌, arith, if◌then◌else◌, ◌==◌,
}
use Prim.Native.Nat.{bit_and}
use mate_session_manager.Xsmp.{
  no_save, SmLib, style_none, style_any, save_yourself, responds, save_complete, shutdown_cancelled,
  Xsmp, save_message, do_save_yourself, xsmp_cancel_end_session, xsmp_query_end_session,
  save_yourself_done_callback,
}

-- The numbers of X11/SM/SM.h.
pub record IsSm (lib : SmLib) : Type 0 where
  pub is_global : lib.save_global ≡ pos 0
  pub is_local : lib.save_local ≡ pos 1
  pub is_both : lib.save_both ≡ pos 2

-- A SaveYourself of a type other than SmSaveGlobal that is asked for while the client saves waits in
-- the queue, and is sent when the client is done, after the SaveComplete for the one before; a third
-- one, asked for in between, is dropped.
pub queued_is_sent :
    (lib : SmLib) (save_type other : ℤ) (allow_interact b : Bool) (x : Xsmp)
    → int_eq x.current_save_yourself no_save ≡ false
    → x.next_save_yourself ≡ no_save
    → int_eq save_type no_save ≡ false
    → int_eq save_type (pos 0) ≡ false
    → let q = do_save_yourself lib save_type allow_interact x in
      let d = save_yourself_done_callback lib q in
      (q.log ≡ x.log)
      × (do_save_yourself lib other b q ≡ q)
      × (d.log
          ≡ save_message lib save_type allow_interact
            ∷ responds true false false false
            ∷ save_complete
            ∷ x.log)
      × (d.current_save_yourself ≡ save_type)
      × (d.next_save_yourself ≡ no_save)
unfolding save_yourself_done_callback do_save_yourself
queued_is_sent lib save_type other allow_interact b x c n s z = ground arith

-- After a logout was cancelled, whatever was asked for before, a query sends the client a
-- SaveYourself that shuts down, in which it may interact unless the query is forceful.
pub query_after_cancel :
    (lib : SmLib) (flags : ℕ) (x : Xsmp)
    → IsSm lib
    → x.is_connected ≡ true
    → (xsmp_query_end_session lib flags (xsmp_cancel_end_session x).0).0.log
      ≡ (if bit_and flags 1 == 0
          then save_yourself (pos 0) true style_any false
          else save_yourself (pos 0) true style_none true)
        ∷ shutdown_cancelled
        ∷ x.log
unfolding xsmp_query_end_session xsmp_cancel_end_session do_save_yourself save_message
query_after_cancel lib flags x s c = ground arith

-- When the client is done and nothing is queued, it is sent one more SaveYourself: of the type -1,
-- with shutdown set and no interaction allowed (where none was asked for in the queue).
pub done_sends_no_save :
    (lib : SmLib) (x : Xsmp)
    → IsSm lib
    → x.next_save_yourself ≡ no_save
    → int_eq x.current_save_yourself no_save ≡ false
    → x.next_allow_interact ≡ false
    → let d = save_yourself_done_callback lib x in
      (d.log
        ≡ save_yourself no_save true style_none true
          ∷ responds true false false false
          ∷ save_complete
          ∷ x.log)
      × (d.current_save_yourself ≡ no_save)
      × (d.next_save_yourself ≡ no_save)
unfolding save_yourself_done_callback do_save_yourself save_message
done_sends_no_save lib x s n c a = ground arith

-- A query that comes while the client saves is never sent: it is queued, stays in the queue when
-- the client is done, and then keeps every later SaveYourself, such as the one of the end of
-- the session, from being sent.
pub queued_query_is_lost :
    (lib : SmLib) (flags : ℕ) (save_type : ℤ) (b : Bool) (x : Xsmp)
    → IsSm lib
    → x.is_connected ≡ true
    → x.next_save_yourself ≡ no_save
    → int_eq x.current_save_yourself no_save ≡ false
    → let d = save_yourself_done_callback lib (xsmp_query_end_session lib flags x).0 in
      (d.log ≡ responds true false false false ∷ save_complete ∷ x.log)
      × (d.current_save_yourself ≡ no_save)
      × (do_save_yourself lib save_type b d ≡ d)
unfolding xsmp_query_end_session save_yourself_done_callback do_save_yourself
queued_query_is_lost lib flags save_type b x s c n u = ground arith
