-- ===== src/Fcgi/Server/Library.antt =====
-- The calls that src/fcgi/fcgi_server.cpp makes to libfcgi and to the system. `W` is all that lies outside
-- of it, with the streams of the current request, its handler's state and the shared semaphores.
use cometvisu_knxd_fcgi.Fcgi.Request.{FcgiRequest}
use cometvisu_knxd_fcgi.Fcgi.Server.{FcgiResponse, Pool}
use cometvisu_knxd_fcgi.Prelude.{ℕ, Bool, Option, List, Bytes}

pub record Library (W : Type 0) : Type 0 where
  -- `FCGX_OpenSocket`; `none` is a negative descriptor.
  pub open_socket : Bytes → ℕ → W → Option ℕ × W
  pub close : ℕ → W → W
  -- Whether `FCGX_Init` and `FCGX_InitRequest` return 0.
  pub init : W → Bool × W
  pub init_request : ℕ → W → Bool × W
  -- `FCGX_Accept_r`, with `envp` of the request, which may be null; `none` is a negative result.
  pub accept_r : W → Option (Option (List Bytes)) × W
  pub finish_r : W → W
  -- `FCGI_Accept`, with `getenv` while the request is served.
  pub accept : W → Option (Bytes → Option Bytes) × W
  -- `FCGI_fread` on `stdin`.
  pub fread : ℕ → W → Bytes × W
  -- `FCGX_PutStr` to the output of the request, and `FCGI_fwrite` to `stdout`.
  pub put_str : Bytes → W → W
  pub fwrite : Bytes → W → W
  -- The handler; `none` is an exception.
  pub handle : FcgiRequest → W → Option FcgiResponse × W
  -- The semaphores.
  pub pool : W → Pool
  pub with_pool : Pool → W → W
  -- What `shutdown` calls: whether `getsockname` and `connect` succeed, and a new socket.
  pub shutdown_socket : ℕ → W → W
  pub getsockname : ℕ → W → Bool × W
  pub socket : W → Option ℕ × W
  pub connect : ℕ → W → Bool × W
