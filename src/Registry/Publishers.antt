-- ===== src/Registry/Publishers.antt =====
-- src/core/SLSMapPublisher.hpp and .cpp: which role publishes a stream, and which application takes
-- the publishers of which players' application. A role is the address of its object.
pub mod Holding
pub mod Undo
use irl_srt_server.Prelude.{
  ℕ, Bool, true, false, Option, none, some, List, [], ◌∷◌, ◌==◌, if◌then◌else◌,
}
use irl_srt_server.Prelude.Int.{ℤ, sls_ok, sls_error}
use irl_srt_server.Prelude.Keyed.{Key, Keyed, find, is_some}
use irl_srt_server.Prelude.Ordered.{place}

-- `CSLSMapPublisher`. A configuration and a role are pointers, `none` for NULL.
pub record MapPublisher : Type 0 where
  pub live_2_uplive : Keyed Key
  pub uplive_2_conf : Keyed (Option ℕ)
  pub push_2_publisher : Keyed (Option ℕ)

unfoldable pub set_conf : MapPublisher → Key → Option ℕ → ℤ × MapPublisher
set_conf m key ca =
    if is_some (find key m.uplive_2_conf)
    then (sls_error, m)
    else (sls_ok, record m { uplive_2_conf = place key ca m.uplive_2_conf })

unfoldable pub set_live_2_uplive : MapPublisher → Key → Key → ℤ × MapPublisher
set_live_2_uplive m live uplive =
    if is_some (find live m.live_2_uplive)
    then (sls_error, m)
    else (sls_ok, record m { live_2_uplive = place live uplive m.live_2_uplive })

-- A missing entry and a NULL one are alike.
abbrev pub non_null : Option (Option ℕ) → Option ℕ
non_null none = none
non_null (some r) = r

-- The role is not NULL: its name is logged before it is stored.
unfoldable pub set_push_2_publisher : MapPublisher → Key → ℕ → ℤ × MapPublisher
set_push_2_publisher m key role =
    if is_some (non_null (find key m.push_2_publisher))
    then (sls_error, m)
    else (sls_ok, record m { push_2_publisher = place key (some role) m.push_2_publisher })

-- The empty string where there is none.
abbrev pub or_empty : Option Key → Key
or_empty none = []
or_empty (some k) = k

unfoldable pub get_uplive : MapPublisher → Key → Key
get_uplive m key_app = or_empty (find key_app m.live_2_uplive)

unfoldable pub get_ca : MapPublisher → Key → Option ℕ
get_ca m key_app = non_null (find key_app m.uplive_2_conf)

unfoldable pub get_publisher : MapPublisher → Key → Option ℕ
get_publisher m key = non_null (find key m.push_2_publisher)

abbrev names : Keyed (Option ℕ) → List Key
names [] = []
names ((k, r) ∷ m) = k ∷ names m

unfoldable pub get_publisher_names : MapPublisher → List Key
get_publisher_names m = names m.push_2_publisher

unfoldable pub get_publishers : MapPublisher → Keyed (Option ℕ)
get_publishers m = m.push_2_publisher

abbrev pub is_role : ℕ → Option ℕ → Bool
is_role role none = false
is_role role (some r) = role == r

-- The loop of `remove`: the first entry of the role goes. Also whether there was one.
unfoldable pub remove_role : ℕ → Keyed (Option ℕ) → Bool × Keyed (Option ℕ)
remove_role role [] = (false, [])
remove_role role ((k, r) ∷ m) =
    let (found, rest) = remove_role role m in
    if is_role role r then (true, m) else (found, (k, r) ∷ rest)

-- NULL equals the address of an empty entry, of which there is none.
unfoldable pub remove : MapPublisher → ℕ → ℤ × MapPublisher
remove m role =
    let (found, rest) = remove_role role m.push_2_publisher in
    (if found then sls_ok else sls_error, record m { push_2_publisher = rest })

unfoldable pub clear : MapPublisher → MapPublisher
clear m = record m { push_2_publisher = []; live_2_uplive = []; uplive_2_conf = [] }
