-- ===== src/Gateway/Tests.antt =====
-- Runs of the renderer's helpers.
use Prim.Native.String.{count}
use pq_migration_gateway.Prelude.{◌≡◌, refl, some}
use pq_migration_gateway.Prelude.Text.{lower}
use pq_migration_gateway.Gateway.Text.{port_text, json_string, without_slashes}
use pq_migration_gateway.Gateway.Http.{urlsplit}
use pq_migration_gateway.Gateway.Stream.{split_last_colon}

line_break-count : count "a\n" ≡ 2
line_break-count = refl

port_text_8443 : port_text 8443 ≡ "8443"
unfolding port_text
port_text_8443 = refl

json_string_quote : json_string "a\"b" ≡ "\"a\\\"b\""
unfolding json_string
json_string_quote = refl

urlsplit_bank :
    urlsplit "https://bank:8080/" ≡ record { scheme = "https"; netloc = "bank:8080"; path = "/" }
unfolding urlsplit lower
urlsplit_bank = refl

split_last_colon_host : split_last_colon "db:5432" ≡ some ("db", "5432")
unfolding split_last_colon
split_last_colon_host = refl

without_slashes_twice : without_slashes "http://bank//" ≡ "http://bank"
unfolding without_slashes
without_slashes_twice = refl
