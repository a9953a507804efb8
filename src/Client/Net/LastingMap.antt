-- ===== src/Client/Net/LastingMap.antt =====
-- A map for the tests whose entries never expire.
use backuwup.Prelude.{refl, [], inr}
use backuwup.Prelude.Dict.{Dict, lookup, insert, erase, lookup-insert, lookup-erase}
use backuwup.DelayMap.{DelayMap, IsDelayMap}
use backuwup.Client.Net.Requests.{P2PConnectionRequest}

abbrev pub lasting : DelayMap P2PConnectionRequest
lasting = record {
  Map = Dict P2PConnectionRequest;
  new = [];
  get = λ m k. lookup k m;
  insert = λ m k v. insert k v m;
  remove = λ m k. erase k m;
  elapse = λ m. m;
}

pub lasting-IsDelayMap : IsDelayMap lasting
unfolding lookup
lasting-IsDelayMap = record {
  get-new = λ k. refl;
  get-insert = λ m k j v. lookup-insert k j v m;
  get-remove = λ m k j. lookup-erase k j m;
  get-elapse = λ m k. inr refl;
}
