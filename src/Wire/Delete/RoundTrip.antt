-- ===== src/Wire/Delete/RoundTrip.antt =====
-- The message 'D', written and read back.
use distributed_graph_databa.Prelude.{
  ℕ, zero, suc, ◌+◌, ◌<◌, ◌≡◌, refl, [], ◌∷◌, ◌++◌, List, Bytes, length, All, ok, if◌then◌else◌,
  ◌>>=◌, arith,
}
use distributed_graph_databa.Text.{pos, to_size, at}
use distributed_graph_databa.Text.Decimal.{padded, to_string}
use distributed_graph_databa.Text.Decimal.Length.{sprintf_fits}
use distributed_graph_databa.Text.Field.{take_field}
use distributed_graph_databa.Text.Laws.{take_number-padded, substr_first, erase_first}
use distributed_graph_databa.Wire.{sized}
use distributed_graph_databa.Wire.{Host}
use distributed_graph_databa.Wire.Pieces.{Fits, sized_text, sized-eq, take_field-sized, take_size}
use distributed_graph_databa.Wire.Hosts.{HostFits, hosts_text, put_hosts-eq, take_repos_last}
use distributed_graph_databa.Wire.Delete.{
  new_delete_text, char_digit, is_positive, take_delete, receive_delete,
}

-- What of the attribute or relation is sent: nothing, where a node is to be deleted.
abbrev pub target_sent : ℕ → Bytes → Bytes
target_sent zero attr_or_rel = []
target_sent (suc object) attr_or_rel = attr_or_rel

abbrev target_text : ℕ → Bytes → Bytes
target_text zero attr_or_rel = []
target_text (suc object) attr_or_rel = sized_text attr_or_rel

pub record DeleteFits (name : Bytes) (object : ℕ) (attr_or_rel : Bytes) (request_id : ℕ)
    (repos : List Host) : Type 0 where
  pub name_fits : Fits name
  pub known_object : object < 3
  pub target_fits : Fits attr_or_rel
  pub id_fits : request_id < 1000
  pub few_repos : length repos < 10
  pub repos_fit : All HostFits repos

object_written : (object : ℕ) → object < 3 → to_string object ≡ (b'0' + object) ∷ []
unfolding to_string
object_written zero h = refl
object_written (suc zero) h = refl
object_written (suc (suc zero)) h = refl
object_written (suc (suc (suc n))) h = absurd (omega arith)

object_read : (object : ℕ) → object < 3 → char_digit (b'0' + object) ≡ pos object
unfolding char_digit
object_read object h = ground arith

module _ (name : Bytes) (object : ℕ) (attr_or_rel : Bytes) (request_id : ℕ) (repos : List Host)
    (fits : DeleteFits name object attr_or_rel request_id repos) where
  abbrev hosts : Bytes
  hosts = padded 1 (length repos) ++ hosts_text repos

  abbrev tail : Bytes
  tail = target_text object attr_or_rel ++ (padded 3 request_id ++ hosts)

  target-eq :
      (o : ℕ)
      → (if is_positive (pos o) then sized attr_or_rel else ok []) ≡ ok (target_text o attr_or_rel)
  target-eq zero = refl
  target-eq (suc o) = rw (sized-eq attr_or_rel fits.target_fits) (ground arith)

  target_read :
      (o : ℕ) (rest : Bytes)
      → (if is_positive (pos o)
          then take_field 3 (length name) (name ++ (target_text o attr_or_rel ++ rest))
          else ok ([], name ++ (target_text o attr_or_rel ++ rest)))
        ≡ ok (target_sent o attr_or_rel, name ++ rest)
  target_read zero rest = refl
  target_read (suc o) rest =
      rw (take_field-sized name attr_or_rel rest (length name) refl fits.target_fits) (ground arith)

  pub new_delete_text-eq :
      new_delete_text name (pos object) attr_or_rel request_id repos
      ≡ ok (b'D' ∷ (b'0' + object) ∷ (sized_text name ++ tail))
  unfolding new_delete_text
  new_delete_text-eq = rw (
    sized-eq name fits.name_fits,
    target-eq object,
    sprintf_fits 2 request_id (omega arith) fits.id_fits,
    sprintf_fits 0 (length repos) (omega arith) fits.few_repos,
    put_hosts-eq repos fits.repos_fit,
    object_written object fits.known_object,
  )

  pub take_delete-eq :
      take_delete ((b'0' + object) ∷ (sized_text name ++ tail))
      ≡ ok (record {
        node_name = name;
        object = pos object;
        attr_or_rel = target_sent object attr_or_rel;
        request_id = pos request_id;
        place = length name;
        buffer = name ++ hosts;
      })
  unfolding take_delete at to_size
  take_delete-eq = rw (
    erase_first (b'0' + object) (sized_text name ++ tail),
    take_size name tail fits.name_fits,
    object_read object fits.known_object,
    target_read object (padded 3 request_id ++ hosts),
    take_number-padded name hosts (length name) 2 request_id refl (omega arith) fits.id_fits,
    substr_first name hosts,
  )

-- A message 'D' of parts that fit (an object below 3, at most nine hosts) is written, and is read
-- back as it was; where a node is deleted no attribute or relation is sent.
pub receive_delete-new_delete_text :
    (name : Bytes) (object : ℕ) (attr_or_rel : Bytes) (request_id : ℕ) (repos : List Host)
    → DeleteFits name object attr_or_rel request_id repos
    → (new_delete_text name (pos object) attr_or_rel request_id repos >>= receive_delete)
      ≡ ok (name, pos object, target_sent object attr_or_rel, pos request_id, repos)
unfolding receive_delete
receive_delete-new_delete_text name object attr_or_rel request_id repos fits = rw (
  new_delete_text-eq name object attr_or_rel request_id repos fits,
  receive_delete,
  erase_first,
  take_delete-eq name object attr_or_rel request_id repos fits,
  take_repos_last repos name (length name) refl fits.few_repos fits.repos_fit,
)
