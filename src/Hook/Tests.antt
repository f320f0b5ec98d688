-- ===== src/Hook/Tests.antt =====
-- A concrete system with one socket, and the theorems on the hooked calls applied to it.
use fiber_async.Prelude.{◌≡◌, refl, none, some, true, false, ok, pos, [], ◌∷◌}
use fiber_async.FdManager.{FdCtx, Flags}
use fiber_async.Hook.{System, Hooked, fcntl_setfl, fcntl_getfl}
use fiber_async.Hook.Nonblock.{setfl-getfl}

-- One set of flags serves all descriptors.
some-nonblock : (f g : Flags) → some f ≡ some g → g.nonblock ≡ f.nonblock
some-nonblock f g h = cc

abbrev one_descriptor : System
one_descriptor = record {
  Kernel = Flags;
  getfl = λ k fd. k;
  setfl = λ k fd f. some f;
  fionbio = λ k fd b. some (record k { nonblock = b });
  setfl_effect = λ k fd f k' h. some-nonblock f k' h;
  fionbio_effect = λ k fd b k' h. some-nonblock (record k { nonblock = b }) k' h;
}

abbrev socket_ctx : FdCtx
socket_ctx = record {
  is_init = true;
  is_socket = true;
  sys_nonblock = true;
  user_nonblock = false;
  is_closed = false;
  fd = pos 3;
  recv_timeout = 0;
  send_timeout = 0;
}

abbrev system_flags : Flags
system_flags = record { nonblock = true; rest = 2 }

abbrev plain_flags : Flags
plain_flags = record { nonblock = false; rest = 2 }

abbrev one_socket : Hooked one_descriptor
one_socket = record {
  fds = record { ctxs = λ _. socket_ctx; datas = none ∷ none ∷ none ∷ some 9 ∷ [] };
  kernel = system_flags;
}

setfl-getfl_example :
    (t : Hooked one_descriptor) × (r : Flags) × (fcntl_setfl one_descriptor one_socket
        (pos 3)
        plain_flags
      ≡ ok (t, true))
    × ((one_descriptor.getfl t.kernel (pos 3)).nonblock ≡ true)
    × (fcntl_getfl one_descriptor t (pos 3) ≡ ok r)
    × (r.nonblock ≡ false)
setfl-getfl_example =
    setfl-getfl one_descriptor one_socket 3 9 refl refl plain_flags system_flags refl
