-- ===== src/Util/ListenOn.antt =====
-- `FigureOutListenOn` and `GetInternalIp` of util/ip/ip.go, and the copy of them in
-- reg/consul/register.go: the address that a service registers.
use Prim.Native.Char.{Char}
use Prim.Native.String.{[], ◌∷◌}
use foundation_framework.Base.{
  String, Bool, true, not, ◌&&◌, ◌||◌, if◌then◌else◌, ◌=ˢ◌, List, ◌≡◌, refl, Bool-cases, inl, inr,
}
use foundation_framework.Base.Split.{split, join, no_sep, split-append, join-cons_split}
use foundation_framework.Err.{◌<>◌}

abbrev pub colon : Char
colon = ":"

abbrev all_eths : String
all_eths = "0.0.0.0"

unfoldable pub get_internal_ip : String → String → String
get_internal_ip env_pod_ip internal_ip = if env_pod_ip =ˢ [] then internal_ip else env_pod_ip

unfoldable pub unspecified : String → Bool
unspecified host = host =ˢ [] || host =ˢ all_eths

figured : String → String → List String → String
figured ip listen_on List.[] = listen_on
figured ip listen_on (List.◌∷◌ host fields) =
    if unspecified host
    then (if ip =ˢ [] then listen_on else join colon (List.◌∷◌ ip fields))
    else listen_on

-- `ip` is what GetInternalIp returns.
unfoldable pub figure_out_listen_on : String → String → String
unfolding figured join unspecified
figure_out_listen_on ip listen_on = figured ip listen_on (split colon listen_on)

-- The host before the first colon is replaced by the IP exactly if it is empty or 0.0.0.0 and there is
-- an IP; whatever follows the colon is kept.
figure_out_listen_on-append :
    (ip host rest : String)
    → no_sep colon host ≡ true
    → figure_out_listen_on ip (host <> (colon ∷ rest))
      ≡ (if (host =ˢ [] || host =ˢ "0.0.0.0") && not (ip =ˢ []) then ip else host) <> (colon ∷ rest)
unfolding figure_out_listen_on figured unspecified
figure_out_listen_on-append ip host rest h =
    rw (split-append colon host rest h) (elim (Bool-cases (host =ˢ [] || host =ˢ all_eths)) [
      | inl t ↦ rw t (elim (Bool-cases (ip =ˢ [])) [
        | inl e ↦ rw e refl
        | inr n ↦ rw n (join-cons_split colon ip rest)
      ])
      | inr f ↦ rw f refl
    ])
