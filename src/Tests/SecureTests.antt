-- ===== src/Tests/SecureTests.antt =====
-- The module src/modules/se_proxy/se_proxy.c, with a cipher of one block, and
-- src/modules/module_util/octet_order.c on concrete inputs.
use snakesocks.Base.{
  ◌⊎◌, ◌+◌, ◌≤◌, ◌≡◌, ◌↔◌, refl, true, false, none, some, [], ◌∷◌, arith, length, take,
}
use snakesocks.Io.{Bytes, ok}
use snakesocks.Module.{ConnectInfo, as_read, received}
use snakesocks.NetLib.{codes, to_string}
use snakesocks.Aes.{pad_key, padded, mode_fill, aes_decrypt}
use snakesocks.Aes.FirstBlock.{xor_block, first_block, first_block-laws}
use snakesocks.SimpleProxy.{bytes_32}
use snakesocks.SeProxy.{
  Key, auth_str, client_make_auth_query, client_deal_auth_reply, server_make_auth_reply,
  client_encode, client_decode, server_encode, server_decode,
}
use snakesocks.SeProxy.Codec.{client_decode-server_encode}
use snakesocks.SeProxy.Login.{
  accepted, client_deal_auth_reply-server_make_auth_reply, server_make_auth_reply_iff,
}
use snakesocks.Tests.Fixtures.{mem, mem-IsMemory, web, web-IsQuery}

abbrev before : ConnectInfo Key
before = record {
  server_ip = [];
  server_port = 1080;
  passphrase = received (codes "key");
  connect_fd = 4;
  additional_info = none;
}

abbrev keyed : ConnectInfo Key
keyed = record before { additional_info = some (codes "_42") }

client_decode-server_encode_example :
    (packet : Bytes) × (server_encode first_block mem keyed web ≡ (ok (received packet), keyed))
    × (client_decode first_block mem keyed (received packet) ≡ (ok (as_read web), keyed))
    × (client_encode first_block mem keyed web ≡ (ok (received packet), keyed))
    × (server_decode first_block mem keyed (received packet) ≡ (ok (as_read web), keyed))
    × (2 + 28 ≤ length packet)
    × (length packet ≤ 2 + 43)
client_decode-server_encode_example =
    client_decode-server_encode first_block first_block-laws mem keyed keyed (codes "_42") web refl
      refl mem-IsMemory web-IsQuery (omega arith)

client_deal_auth_reply-server_make_auth_reply_example :
    let asked = client_make_auth_query first_block before in
    (query : Bytes) × (reply : Bytes) × (asked.0 ≡ ok (received query))
    × (server_make_auth_reply first_block 42 before (received query) ≡ (
      ok (received reply, false),
      record before { additional_info = some (b'_' ∷ to_string 42) },
    ))
    × (client_deal_auth_reply first_block asked.1 (received reply)
        ≡ (ok true, record before { additional_info = some (b'_' ∷ to_string 42) }))
    × (length query ≤ 32)
    × (length reply ≤ 35)
client_deal_auth_reply-server_make_auth_reply_example =
    client_deal_auth_reply-server_make_auth_reply first_block first_block-laws 42 before before refl

-- The authentication string under the key.
abbrev right_query : Bytes
right_query = xor_block (pad_key (codes "key")) (padded auth_str)

decrypted : aes_decrypt first_block right_query (codes "key") mode_fill ≡ ok (padded auth_str, 10)
unfolding aes_decrypt snakesocks.SimpleProxy.xor_all padded snakesocks.SimpleProxy.simple_hash
decrypted = refl

long_enough : 16 ≤ length (padded auth_str)
unfolding padded
long_enough = omega arith

server_make_auth_reply_iff_example :
    let answer = server_make_auth_reply first_block 42 before (received right_query) in
    ((accepted answer.0 ≡ true) ↔ ((10 ≡ length auth_str) × (take 10 (padded auth_str) ≡ auth_str)))
    × ((accepted answer.0 ≡ true) ⊎ (answer ≡ (ok (received (1 ∷ []), true), before)))
server_make_auth_reply_iff_example =
    server_make_auth_reply_iff first_block first_block-laws 42 10 before right_query
      (padded auth_str) decrypted long_enough
