-- ===== src/Gateway/Secrets/Tests.antt =====
-- Payloads with secrets.
use xts_multi_tennant.Prelude.{codes, lower, refl, text_eq, ◌≡◌}
use xts_multi_tennant.Gateway.Secrets.{
  member, text, object, array, item, nil, end, Members, AreMasked, sanitize_dict, is_sensitive,
  sanitize_dict-AreMasked,
}

-- A payload with a secret of its own, one in a dict, and one in a dict of a list.
abbrev payload : Members
payload = member (codes "Secret") (text (codes "s3")) (
    member (codes "auth") (object (member (codes "token") (text (codes "t")) nil)) (
      member (codes "legs")
        (array (item (object (member (codes "token") (text (codes "t")) nil)) end)) nil))

sanitize_dict-AreMasked_example : AreMasked (sanitize_dict payload)
sanitize_dict-AreMasked_example = sanitize_dict-AreMasked payload

-- The secret in the list stays.
secret_in_list_stays :
    sanitize_dict (
      member
        (codes "legs")
        (array (item (object (member (codes "token") (text (codes "t")) nil)) end))
        nil)
    ≡ member
        (codes "legs")
        (array (item (object (member (codes "token") (text (codes "t")) nil)) end))
        nil
unfolding is_sensitive sanitize_dict text_eq lower
secret_in_list_stays = refl
