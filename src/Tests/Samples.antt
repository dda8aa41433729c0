-- ===== src/Tests/Samples.antt =====
-- Messages that the clients and the server write, with the conversions of Tests/Inet.antt.
use optisocks.Prelude.{pos, ◌≡◌, refl, none, some, ◌≢◌, arith, [], ◌∷◌, Bytes, ok}
use optisocks.Codec.Address.{classify_host, encode_address, push_port}
use optisocks.Codec.Platform.{c_str}
use optisocks.Codec.Messages
use optisocks.Codec.Binding
use optisocks.Codec.Binding.{c_int, c_string, in_range, value_error_of}
use optisocks.Core.Types
use optisocks.Codec.Address.RoundTrip.{canonical}
use optisocks.Core.Session.{
  optimistic_pipeline, fresh, done, returned, feed, loop, turn, method_turn,
}
use optisocks.Tests.Inet.{toy, lower}

abbrev pub name : Bytes
name = 97 ∷ 98 ∷ []

abbrev pub pipeline : Bytes
pipeline = 5 ∷ 1 ∷ 0 ∷ 5 ∷ 1 ∷ 0 ∷ 3 ∷ 2 ∷ 97 ∷ 98 ∷ 0 ∷ 80 ∷ []

pub request_run :
    Binding.request toy (pos 1) name (pos 80) ≡ ok (5 ∷ 1 ∷ 0 ∷ 3 ∷ 2 ∷ 97 ∷ 98 ∷ 0 ∷ 80 ∷ [])
unfolding Binding.request Messages.request encode_address classify_host push_port c_str c_int
    c_string in_range value_error_of lower
request_run = refl

pub pipeline_run :
    optimistic_pipeline toy (fresh none) name (pos 80) (pos Types.connect) ≡ ok pipeline
unfolding optimistic_pipeline Binding.client_greeting Messages.client_greeting Binding.request
    Messages.request encode_address classify_host push_port c_str c_int c_string in_range
    value_error_of lower
pipeline_run = refl

abbrev pub replied : Bytes
replied = 5 ∷ 0 ∷ 0 ∷ 3 ∷ 2 ∷ 97 ∷ 98 ∷ 0 ∷ 80 ∷ []

pub reply_run : Binding.reply toy (pos 0) name (pos 80) ≡ ok replied
unfolding Binding.reply Messages.reply encode_address classify_host push_port c_str c_int c_string
    in_range value_error_of lower
reply_run = refl

pub greeting_run : Binding.client_greeting (0 ∷ 2 ∷ []) ≡ ok (5 ∷ 2 ∷ 0 ∷ 2 ∷ [])
unfolding Binding.client_greeting Messages.client_greeting value_error_of
greeting_run = refl

abbrev pub user : Bytes
user = 117 ∷ []

abbrev pub password : Bytes
password = 112 ∷ 119 ∷ []

pub userpass_run : Binding.userpass_auth user password ≡ ok (1 ∷ 1 ∷ 117 ∷ 2 ∷ 112 ∷ 119 ∷ [])
unfolding Binding.userpass_auth Messages.userpass_auth value_error_of
userpass_run = refl

abbrev pub auth_pipeline : Bytes
auth_pipeline = 5 ∷ 1 ∷ 2 ∷ 1 ∷ 1 ∷ 117 ∷ 2 ∷ 112 ∷ 119 ∷ 5 ∷ 1 ∷ 0 ∷ 3 ∷ 2 ∷ 97 ∷ 98 ∷ 0 ∷ 80 ∷ []

pub auth_pipeline_run :
    optimistic_pipeline toy (fresh (some (user, password))) name (pos 80) (pos Types.connect)
    ≡ ok auth_pipeline
unfolding optimistic_pipeline Binding.userpass_auth Messages.userpass_auth Binding.client_greeting
    Messages.client_greeting Binding.request Messages.request encode_address classify_host push_port
    c_str c_int c_string in_range value_error_of lower
auth_pipeline_run = refl

pub udp_run :
    Binding.udp_encapsulate toy name (pos 80) (7 ∷ 8 ∷ []) (pos 0)
    ≡ ok (0 ∷ 0 ∷ 0 ∷ 3 ∷ 2 ∷ 97 ∷ 98 ∷ 0 ∷ 80 ∷ 7 ∷ 8 ∷ [])
unfolding Binding.udp_encapsulate Messages.udp_encapsulate encode_address classify_host push_port
    c_str c_int c_string in_range value_error_of lower
udp_run = refl

pub name_run : canonical toy name ≡ some name
unfolding classify_host c_str lower
name_run = refl

pub fresh_state : (fresh none).state ≢ done
fresh_state h = absurd (ground arith)

pub fresh_idle : feed toy (fresh none) [] ≡ (returned none, fresh none)
unfolding feed loop turn method_turn
fresh_idle = refl
