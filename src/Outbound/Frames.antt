-- ===== src/Outbound/Frames.antt =====
-- The packs that src/native/src/socks5.cc and tunnel.cc send and receive at the client, over the laws
-- of stream sockets: a length in network order, and the bytes.
use snakesocks.Base.{ℕ, ◌<◌, ◌^◌, ◌≡◌, ◌∙◌, true, ◌++◌, length, append_assoc}
use snakesocks.Io.{Bytes, ok, Streams}
use snakesocks.NetLib.{htonl}
use snakesocks.NetLib.Frames.{
  frame, Sent, Sent-trans, Taken, Taken-trans, recvn-Taken, sendn-Sent, after_send, after_recv,
}
use snakesocks.Environment.{Environment}
use snakesocks.Outbound.{send_pack}

module _ (env : Environment) (str : Streams env.io) (fd : ℕ) where
  open str use {incoming, outgoing, writable, emit, consume}

  pub send_pack_lem :
      (pack : Bytes) (w : env.io.World)
      → writable w fd ≡ true
      → (send_pack env fd pack w ≡ (ok tt, after_send env.io str fd pack w))
        × Sent env.io str fd (frame pack) w (after_send env.io str fd pack w)
  unfolding send_pack
  send_pack_lem pack w h =
      let n = htonl (length pack) in
      let (e, p) = sendn-Sent env.io str fd n w h in
      let (e', p') = sendn-Sent env.io str fd pack (emit fd n w) (p.still_open ∙ h) in
      (
        rw e e',
        Sent-trans env.io str fd n pack w (emit fd n w) (after_send env.io str fd pack w) p p',
      )

  -- The two receives of a framed pack.
  pub recv_pack_lem :
      (pack rest : Bytes) (w : env.io.World)
      → incoming w fd ≡ frame pack ++ rest
      → length pack < 2 ^ 32
      → (env.io.recvn fd 4 w ≡ (ok (htonl (length pack)), consume fd 4 w))
        × (env.io.recvn fd (length pack) (consume fd 4 w)
            ≡ (ok pack, after_recv env.io str fd pack w))
        × Taken env.io str fd rest w (after_recv env.io str fd pack w)
  unfolding htonl
  recv_pack_lem pack rest w e fits =
      let n = htonl (length pack) in
      let v = consume fd 4 w in
      let (h, p) = recvn-Taken env.io str fd n (pack ++ rest) w (e ∙ append_assoc n pack rest) in
      let (h', p') = recvn-Taken env.io str fd pack rest v p.unread in
      (
        h,
        h',
        Taken-trans env.io str fd (pack ++ rest) rest w v (after_recv env.io str fd pack w) p p',
      )
