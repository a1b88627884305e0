-- ===== src/Tests/CopyWitnesses.antt =====
-- The theorems on deep copies, for a list with one microservice.
use kom_operator.Prelude.{
  eqb, if◌then◌else◌, ℕ, String, ◌≡◌, refl, arith, Option, none, some, [], ◌∷◌, pos,
}
use kom_operator.Kube.{TypeMeta}
use kom_operator.Api.{Status}
use kom_operator.DeepCopy.Memory.{Memory, Address, Copy, pure, write, Below, Between, Same}
use kom_operator.DeepCopy.Copies.{write_other, Copied, Plain, Plain-Copies}
use kom_operator.DeepCopy.Types.{Foreign, Cell, Microservice, MicroserviceList}
use kom_operator.DeepCopy.Functions.{
  Externals, microservice_deep_copy_object, list_deep_copy_object,
}
use kom_operator.DeepCopy.Faithful.{Documented, DeepCopies, Strings, ContainerDeep}
use kom_operator.DeepCopy.Faithful.Whole.{MicroserviceDeep, MicroservicePointer, ListPointer}
use kom_operator.DeepCopy.Apart.{list_deep_copy_object-Copied, microservice_copies_apart}

-- Other packages whose values are texts.
abbrev texts : Foreign
texts = record {
  Contents = String;
  ObjectMeta = String;
  ListMeta = String;
  Time = String;
  VolumeMount = String;
  Volume = String;
  ResourceRequirements = String;
  PodSecurityContext = String;
}

abbrev keep : String → Copy (Cell texts) String
keep text = pure text

abbrev externals : Externals texts
externals = record {
  meta = keep;
  list_meta = keep;
  time = keep;
  volume_mount = keep;
  volume = keep;
  resources = keep;
  security_context = keep;
}

abbrev plain : Documented texts keep
plain = record { Value = String; deep = Plain String; copies = Plain-Copies }

abbrev documented : DeepCopies externals
documented = record {
  meta = plain;
  list_meta = plain;
  time = plain;
  volume_mount = plain;
  volume = plain;
  resources = plain;
  security_context = plain;
}

abbrev type_meta : TypeMeta
type_meta = record { kind = "Microservice"; api_version = "kom.kaiso.github.io/v1alpha1" }

-- A microservice with a command, which stands in the first cell.
abbrev shop : Microservice texts
shop = record {
  type_meta = type_meta;
  meta = "shop";
  spec = record {
    container = record {
      image = "shop:1";
      command = some 0;
      args = none;
      routing = record { http = none };
      image_pull_policy = "";
      volume_mounts = none;
      resources = "";
    };
    autoscaling = record { scaler = none; max = pos 1; min = pos 1 };
    volumes = none;
    service_account_name = "";
    node_selector = none;
    security_context = none;
  };
  status = record {
    routing = record { http = none };
    status = Status.unset;
    last_update = "";
    reason = "";
  };
}

abbrev list : MicroserviceList texts
list = record { type_meta = type_meta; meta = ""; items = some 1 }

abbrev cells : ℕ → Option (Cell texts)
cells a =
    if eqb a 0
    then some (Cell.strings ("serve" ∷ []))
    else if eqb a 1
    then some (Cell.microservices (shop ∷ []))
    else if eqb a 2
    then some (Cell.lists (list ∷ []))
    else none

abbrev memory : Memory (Cell texts)
memory = record { next = 3; cell = cells }

command-Within : (Strings {F = texts}).Within (Below 3) memory (some 0)
command-Within = (omega arith, "serve" ∷ [], refl, (tt, tt))

container-Within : (ContainerDeep documented).Within (Below 3) memory shop.spec.container
container-Within = (tt, (command-Within, (tt, (tt, (tt, tt)))))

shop-Within : (MicroserviceDeep documented).Within (Below 3) memory shop
shop-Within = (tt, (tt, ((tt, (container-Within, ((tt, tt), (tt, (tt, tt))))), (tt, (tt, tt)))))

shop_pointer-Within : (MicroservicePointer documented).Within (Below 3) memory (some 1)
shop_pointer-Within = (omega arith, shop ∷ [], refl, (shop-Within, tt))

list_pointer-Within : (ListPointer documented).Within (Below 3) memory (some 2)
list_pointer-Within = (omega arith, list ∷ [], refl, ((tt, (tt, shop_pointer-Within)), tt))

abbrev list_copy : Address × Memory (Cell texts)
list_copy = list_deep_copy_object externals (some 2) memory

list_deep_copy_object_example :
    Copied (ListPointer documented) memory (some 2) list_copy.0 list_copy.1
list_deep_copy_object_example =
    list_deep_copy_object-Copied documented (some 2) memory list_pointer-Within

abbrev shop_copy : Address × Memory (Cell texts)
shop_copy = microservice_deep_copy_object externals (some 1) memory

-- The command of the copy is in the cell 4, that of the original in the cell 0; code overwrites one.
abbrev copy_overwritten : Memory (Cell texts)
copy_overwritten = write shop_copy.1 4 (Cell.strings [])

abbrev original_overwritten : Memory (Cell texts)
original_overwritten = write shop_copy.1 0 (Cell.strings [])

kept_before : Same (Below 3) shop_copy.1 copy_overwritten
kept_before a i = write_other shop_copy.1 4 a (Cell.strings []) (ground (arith, i))

kept_since : Same (Between 3 shop_copy.1.next) shop_copy.1 original_overwritten
kept_since a i = write_other shop_copy.1 0 a (Cell.strings []) (ground (arith, i.0))

microservice_copies_apart_example :
    ((MicroservicePointer documented).view (some 1) copy_overwritten
      ≡ (MicroservicePointer documented).view (some 1) memory)
    × ((MicroservicePointer documented).view shop_copy.0 original_overwritten
        ≡ (MicroservicePointer documented).view (some 1) memory)
microservice_copies_apart_example =
    microservice_copies_apart documented (some 1) memory shop_pointer-Within copy_overwritten
      kept_before original_overwritten kept_since
