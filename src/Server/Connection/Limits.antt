-- ===== src/Server/Connection/Limits.antt =====
-- Commands that are not served.
use rdrive.Base.{ℕ, ◌≡◌, false, some, arith, Bytes}
use rdrive.Base.Outcome.{err}
use rdrive.Crypto.{Primitives}
use rdrive.RateLimit.{IpAddr, is_allowed_cost}
use rdrive.Header.{Command, Invalid, UploadHeader, validate_upload, upload}
use rdrive.Server.{Site, Server}
use rdrive.Server.Connection.{cost, allowed, serve, dispatch}

module _ (P : Primitives) (C : Site) (fuel : ℕ) (key client_key : Bytes) where
  -- A command that the limiter does not let its client pay for touches neither the disk nor the locks nor
  -- the counters, and takes nothing but what the limiter records.
  pub serve_refused :
      (ip : IpAddr) (c : Command) (s : Server)
      → (is_allowed_cost (C.clock s.wire.draws) ip (cost c) s.limiter).1 ≡ false
      → ((serve P C fuel (some ip) key client_key c s).1.disk ≡ s.disk)
        × ((serve P C fuel (some ip) key client_key c s).1.locks ≡ s.locks)
        × ((serve P C fuel (some ip) key client_key c s).1.tracker ≡ s.tracker)
        × ((serve P C fuel (some ip) key client_key c s).1.limiter
            ≡ (is_allowed_cost (C.clock s.wire.draws) ip (cost c) s.limiter).0)
  unfolding serve allowed
  serve_refused ip c s poor = (ground arith, ground arith, ground arith, ground arith)

  -- An upload whose header does not pass the validation is refused before it takes a lock or touches the
  -- disk.
  pub dispatch_invalid_upload :
      (h : UploadHeader) (e : Invalid) (s : Server)
      → validate_upload C.max_file_size h ≡ err e
      → ((dispatch P C fuel key client_key (upload h) s).1.disk ≡ s.disk)
        × ((dispatch P C fuel key client_key (upload h) s).1.locks ≡ s.locks)
  unfolding dispatch
  dispatch_invalid_upload h e s bad = (ground arith, ground arith)
