-- ===== src/Base/GError.antt =====
-- GLib's `GError *`, where what matters is whether it may be read.

-- What a `GError *` points to: nothing, an error, or one that was freed.
pub data ErrorRef (E : Type 0) : Type 0 where
  null freed : ErrorRef E
  live : E → ErrorRef E
