-- ===== src/Drivedb/Table/Ata04.antt =====
-- backends/exec/drivedb.h, lines 4369 to 4518.
use Prim.Native.String.{String}

unfoldable pub ata_text_04 : String
ata_text_04 =
    "    \"\", \"\", \"\"\n  },\n  { \"Seagate Momentus XT\", // fixed firmware\n    \"ST9(2505610|3205620|5005620)AS\",\n    \"SD2[68]\", // https://knowledge.seagate.com/articles/en_US/FAQ/215451en\n    \"\", \"\"\n  },\n  { \"Seagate Momentus XT\", // buggy firmware, tested with ST92505610AS/SD24\n    \"ST9(2505610|3205620|5005620)AS\",\n    \"SD2[45]\",\n    \"These drives may corrupt large files,\\n\"\n    \"AND THIS FIRMWARE VERSION IS AFFECTED,\\n\"\n    \"see the following web pages for details:\\n\"\n    \"https://knowledge.seagate.com/articles/en_US/FAQ/215451en\\n\"\n    \"https://superuser.com/questions/313447/seagate-momentus-xt-corrupting-files-linux-and-mac\",\n    \"\"\n  },\n  { \"Seagate Momentus XT\", // unknown firmware\n    \"ST9(2505610|3205620|5005620)AS\",\n    \"\",\n    \"These drives may corrupt large files,\\n\"\n    \"see the following web pages for details:\\n\"\n    \"https://knowledge.seagate.com/articles/en_US/FAQ/215451en\\n\"\n    \"https://superuser.com/questions/313447/seagate-momentus-xt-corrupting-files-linux-and-mac\",\n    \"\"\n  },\n  { \"Seagate Momentus XT (AF)\", // tested with ST750LX003-1AC154/SM12\n    \"ST750LX003-.*\",\n    \"\", \"\", \"\"\n  },\n  { \"Seagate Momentus Thin\", // tested with ST320LT007-9ZV142/0004LVM1\n    \"ST(160|250|320)LT0(07|09|11|14)-.*\",\n    \"\", \"\", \"\"\n  },\n  { \"Seagate Laptop HDD\", // tested with ST500LT012-9WS142/0001SDM1,\n      // ST500LM021-1KJ152/0002LIM1, ST500LM021-1KJ152/0003LIM1, ST4000LM016-1N2170/0003\n    \"ST((25|32|50)0LT0(12|15|25)|(32|50)0LM0(10|21)|[34]000LM016)-.*\",\n    \"\", \"\",\n    \"-v 1,raw24/raw32 -v 7,raw24/raw32 -v 188,raw16\"\n  },\n  { \"Seagate Laptop SSHD\", // tested with ST500LM000-1EJ162/SM11\n    \"ST(500|1000)LM0(00|14)-.*\",\n    \"\", \"\", \"\"\n  },\n  { \"Seagate Medalist 1010, 1720, 1721, 2120, 3230 and 4340\",  // ATA2, with -t permissive\n    \"ST3(1010|1720|1721|2120|3230|4340)A\",\n    \"\", \"\", \"\"\n  },\n  { \"Seagate Medalist 2110, 3221, 4321, 6531, and 8641\",\n    \"ST3(2110|3221|4321|6531|8641)A\",\n    \"\", \"\", \"\"\n  },\n  { \"Seagate U4\",\n    \"ST3(2112|4311|6421|8421)A\",\n    \"\", \"\", \"\"\n  },\n  { \"Seagate U5\",\n    \"ST3(40823|30621|20413|15311|10211)A\",\n    \"\", \"\", \"\"\n  },\n  { \"Seagate U6\",\n    \"ST3(8002|6002|4081|3061|2041)0A\",\n    \"\", \"\", \"\"\n  },\n  { \"Seagate U7\",\n    \"ST3(30012|40012|60012|80022|120020)A\",\n    \"\", \"\", \"\"\n  },\n  { \"Seagate U8\",\n    \"ST3(4313|6811|8410|4313|13021|17221)A\",\n    \"\", \"\", \"\"\n  },\n  { \"Seagate U9\", // tested with ST3160022ACE/9.51\n    \"ST3(80012|120025|160022)A(CE)?\",\n    \"\", \"\", \"\"\n  },\n  { \"Seagate U10\",\n    \"ST3(20423|15323|10212)A\",\n    \"\", \"\", \"\"\n  },\n  { \"Seagate UX\",\n    \"ST3(10014A(CE)?|20014A)\",\n    \"\", \"\", \"\"\n  },\n  { \"Seagate Barracuda ATA\",\n    \"ST3(2804|2724|2043|1362|1022|681)0A\",\n    \"\", \"\", \"\"\n  },\n  { \"Seagate Barracuda ATA II\",\n    \"ST3(3063|2042|1532|1021)0A\",\n    \"\", \"\", \"\"\n  },\n  { \"Seagate Barracuda ATA III\",\n    \"ST3(40824|30620|20414|15310|10215)A\",\n    \"\", \"\", \"\"\n  },\n  { \"Seagate Barracuda ATA IV\",\n    \"ST3(20011|30011|40016|60021|80021)A\",\n    \"\", \"\", \"\"\n  },\n  { \"Seagate Barracuda ATA V\",\n    \"ST3(12002(3A|4A|9A|3AS)|800(23A|15A|23AS)|60(015A|210A)|40017A)\",\n    \"\", \"\", \"\"\n  },\n  { \"Seagate Barracuda 5400.1\",\n    \"ST340015A\",\n    \"\", \"\", \"\"\n  },\n  { \"Seagate Barracuda 7200.7 and 7200.7 Plus\", // tested with \"ST380819AS          39M3701 39M0171 IBM\"/3.03\n    \"ST3(200021A|200822AS?|16002[13]AS?|12002[26]AS?|1[26]082[78]AS|8001[13]AS?|8081[79]AS|60014A|40111AS|40014AS?)( .* IBM)?\",\n    \"\", \"\", \"\"\n  },\n  { \"Seagate Barracuda 7200.8\",\n    \"ST3(400[68]32|300[68]31|250[68]23|200826)AS?\",\n    \"\", \"\", \"\"\n  },\n  { \"Seagate Barracuda 7200.9\",\n    \"ST3(402111?|80[28]110?|120[28]1[0134]|160[28]1[012]|200827|250[68]24|300[68]22|(320|400)[68]33|500[68](32|41))AS?.*\",\n    \"\", \"\", \"\"\n  },\n  { \"Seagate Barracuda 7200.10\", // tested with GB0160EAFJE/HPG0\n    \"ST3((80|160)[28]15|200820|250[34]10|(250|300|320|400)[68]20|360320|500[68]30|750[68]40)AS?|\"\n    \"GB0160EAFJE\", // HP OEM\n    \"\", \"\", \"\"\n  },\n  { \"Seagate Barracuda 7200.11\", // unaffected firmware\n    \"ST3(160813|320[68]13|500[368]20|640[36]23|640[35]30|750[36]30|1000(333|[36]40)|1500341)AS?\",\n    \"CC.?.?\", // https://knowledge.seagate.com/articles/en_US/FAQ/207957en\n    \"\", \"\"\n  },\n  { \"Seagate Barracuda 7200.11\", // fixed firmware\n    \"ST3(500[368]20|750[36]30|1000340)AS?\",\n    \"SD1A\", // https://knowledge.seagate.com/articles/en_US/FAQ/207951en\n    \"\", \"\"\n  },\n  { \"Seagate Barracuda 7200.11\", // fixed firmware\n    \"ST3(160813|320[68]13|640[36]23|1000333|1500341)AS?\",\n    \"SD[12]B\", // https://knowledge.seagate.com/articles/en_US/FAQ/207957en\n    \"\", \"\"\n  },\n  { \"Seagate Barracuda 7200.11\", // buggy or fixed firmware\n    \"ST3(500[368]20|640[35]30|750[36]30|1000340)AS?\",\n    \"(AD14|SD1[5-9]|SD81)\",\n    \"There are known problems with these drives,\\n\"\n    \"THIS DRIVE MAY OR MAY NOT BE AFFECTED,\\n\"\n    \"see the following web pages for details:\\n\"\n    \"https://knowledge.seagate.com/articles/en_US/FAQ/207931en\\n\"\n    \"https://knowledge.seagate.com/articles/en_US/FAQ/207951en\\n\"\n    \"https://bugs.debian.org/cgi-bin/bugreport.cgi?bug=632758\",\n    \"\""
