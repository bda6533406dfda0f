-- ===== src/PgStore/Leases/Window.antt =====
-- The lease of pgstore and the work that it is taken for.
use howdah.Base.{◌+◌, ◌<◌, ◌%◌, ◌^◌, ◌≡◌, List, true, false, Option, arith}
use howdah.Base.Bytes.{Bytes, bytes_eq}
use howdah.Base.Int.{pos_part, pos, negsuc, int_leb, ℤ}
use howdah.Base.Words.{add_int64}
use howdah.Errors.{ok, >>=-eq-ok}
use howdah.Keyring.{CookieKeyring}
use howdah.PgStore.{
  Conf, interval, validate, PgStore, StoreOption, new_store, with_default_wait, apply_options,
  default_conf,
}
use howdah.PgStore.Leases.{window}

window_parts :
    (lease token write : ℤ)
    → int_leb token (pos 0) ≡ false
    → int_leb write (pos 0) ≡ false
    → int_leb lease (add_int64 token write) ≡ false
    → pos_part token + pos_part write < 2 ^ 63
    → pos_part lease % 1000 ≡ 0
    → pos_part token + pos_part write < interval lease
window_parts (pos l) (pos t) (pos w) ht hw hl short e = ground arith
window_parts (negsuc l) (pos t) (pos w) ht hw hl short e = ground arith
window_parts l (negsuc t) w ht hw hl short e = ground arith
window_parts l (pos t) (negsuc w) ht hw hl short e = ground arith

-- A lease outlasts the work that it covers.
pub window-lt :
    (c : Conf)
    → validate c ≡ ok tt
    → window c < 2 ^ 63
    → pos_part c.refresh_lease % 1000 ≡ 0
    → window c < interval c.refresh_lease
unfolding validate
window-lt c h short e =
    window_parts c.refresh_lease c.token_request_timeout c.write_timeout (ground arith)
      (ground arith) (ground arith) short e

-- Whatever options a store is made with, where its two timeouts together are within the int64 range and
-- its lease is whole microseconds, the lease that the database grants outlasts the token request and
-- the write together.
pub new_store-window :
    (keyring : Option CookieKeyring) (cookie_name : Bytes) (options : List StoreOption)
    (s : PgStore)
    → new_store true keyring cookie_name options ≡ ok s
    → window s.conf < 2 ^ 63
    → pos_part s.conf.refresh_lease % 1000 ≡ 0
    → window s.conf < interval s.conf.refresh_lease
unfolding new_store
new_store-window keyring cookie_name options s h short whole =
    let c = with_default_wait (apply_options options default_conf) in
    let (valid, accepted, later) = >>=-eq-ok (validate c) _ h in
    let (sealer, made, same) =
      >>=-eq-ok _ (λ sealer. ok (record { sealer = sealer; conf = c })) later in
    let conf : c ≡ s.conf = ground (arith, same) in
    rw (← conf) (window-lt c accepted (rw conf short) (rw conf whole))
